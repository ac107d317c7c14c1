-- ===== src/Dap/Streams.antt =====
-- What is framed (cmd/exec-history-dap/serve.go) is read back.
use ojs_conformance.Common.{
  ℕ, zero, suc, ◌<◌, Text, text, ℤ, pos, negsuc, Bool, true, false, not, ◌&&◌, ◌||◌, List, [], ◌∷◌,
  ◌++◌, reverse, reverse-append, reverse-reverse, append_assoc, append-nil, some, ◌≡◌, ◌≢◌, ◌∙◌, ap,
  sym, refl, arith, ◌==◌, All, all, all-append, all-reverse, leb, length, length-append, take, drop,
  map, drop-length_append, decimal, decimal-all, is_digit, trim_space, trim_space-digits, &&_iff,
}
use ojs_conformance.Dap.Framing.{
  Format, scanned, Scan, frame, drop_breaks, trim_breaks, header, read_length, read_header, message,
  end_of_input, read_body, after_header, read_message, read_messages,
}

abbrev plain : ℕ → Bool
plain c = not (c == 13 || c == 10)

all_mono :
    (p q : ℕ → Bool)
    → ((c : ℕ) → p c ≡ true → q c ≡ true)
    → (s : Text) → all p s ≡ true
    → all q s ≡ true
all_mono p q f [] h = refl
all_mono p q f (c ∷ cs) h =
    let (a, b) = (&&_iff _ _).0 h in (&&_iff _ _).1 (f c a, all_mono p q f cs b)

decimal-plain : (n : ℕ) → all plain (decimal n) ≡ true
decimal-plain n = all_mono is_digit plain (λ c h. ground arith) (decimal n) (decimal-all n)

drop_breaks-plain : (s : Text) → all plain s ≡ true → drop_breaks s ≡ s
unfolding drop_breaks
drop_breaks-plain [] h = refl
drop_breaks-plain (c ∷ cs) h = ground arith

trim_breaks-plain : (s : Text) → all plain s ≡ true → trim_breaks (s ++ 13 ∷ []) ≡ s
unfolding trim_breaks drop_breaks
trim_breaks-plain s h =
    ap (λ t. reverse (drop_breaks t)) (reverse-append s (13 ∷ []))
    ∙ (ap reverse (drop_breaks-plain (reverse s) (all-reverse plain s h)) ∙ reverse-reverse s)

take-length_append : (s rest : Text) → take (length s) (s ++ rest) ≡ s
take-length_append [] rest = refl
take-length_append (c ∷ cs) rest = ap (◌∷◌ c) (take-length_append cs rest)

not-true : (b : Bool) → not b ≡ true → b ≡ false
not-true b h = ground arith

module _ (scan_int : Text → Scan) where
  read_header-longer :
      (len : ℤ) (line : Text) (c : ℕ) (cs : Text)
      → not (c == 10) ≡ true
      → read_header scan_int len line (c ∷ cs) ≡ read_header scan_int len (line ++ c ∷ []) cs
  unfolding read_header
  read_header-longer len line c cs h = rw (not-true (c == 10) h, read_header) refl

  read_header-break :
      (len l : ℤ) (line cs : Text) (d : ℕ) (ds : Text)
      → trim_breaks line ≡ d ∷ ds
      → read_length scan_int len (d ∷ ds) ≡ scanned l
      → read_header scan_int len line (10 ∷ cs) ≡ read_header scan_int l [] cs
  unfolding read_header
  read_header-break len l line cs d ds e f = rw (e, f, read_header) refl

  read_header-end :
      (len : ℤ) (line cs : Text)
      → trim_breaks line ≡ []
      → read_header scan_int len line (10 ∷ cs) ≡ header len cs
  unfolding read_header
  read_header-end len line cs e = rw (e, read_header) refl

  read_header-line :
      (len : ℤ) (line s rest : Text)
      → all (λ c. not (c == 10)) s ≡ true
      → read_header scan_int len line (s ++ rest) ≡ read_header scan_int len (line ++ s) rest
  unfolding read_header
  read_header-line len line [] rest h =
      ap (λ l. read_header scan_int len l rest) (sym (append-nil line))
  read_header-line len line (c ∷ cs) rest h =
      let (other, later) = (&&_iff _ _).0 h in
      read_header-longer len line c (cs ++ rest) other
      ∙ (read_header-line len (line ++ c ∷ []) cs rest later
          ∙ ap (λ l. read_header scan_int len l rest) (append_assoc line (c ∷ []) cs))

  -- The line with the content length.
  abbrev length_line : ℕ → Text
  length_line n = text "Content-Length: " ++ decimal n

  length_line-plain : (n : ℕ) → all plain (length_line n) ≡ true
  length_line-plain n = decimal-plain n

  read_length-decimal :
      (n : ℕ)
      → scan_int (decimal n) ≡ scanned (pos n)
      → read_length scan_int (negsuc 0) (length_line n) ≡ scanned (pos n)
  unfolding read_length trim_space
  read_length-decimal n scans = ap scan_int (trim_space-digits (decimal n) (decimal-all n)) ∙ scans

  read_header-frame :
      (n : ℕ) (rest : Text)
      → scan_int (decimal n) ≡ scanned (pos n)
      → read_header scan_int
          (negsuc 0)
          []
          (text "Content-Length: " ++ (decimal n ++ (text "\r\n\r\n" ++ rest)))
        ≡ header (pos n) rest
  unfolding trim_breaks
  read_header-frame n rest scans =
      let start = length_line n in
      let line = start ++ 13 ∷ [] in
      let behind = 10 ∷ 13 ∷ 10 ∷ rest in
      let one_line : all (λ c. not (c == 10)) line ≡ true =
        all-append (λ c. not (c == 10)) start (13 ∷ [])
        ∙ ap (λ b. b && true)
            (all_mono plain (λ c. not (c == 10)) (λ c h. ground arith) start
              (length_line-plain n)) in
      ap (λ t. read_header scan_int (negsuc 0) [] (text "Content-Length: " ++ t))
        (sym (append_assoc (decimal n) (13 ∷ []) behind))
      ∙ (read_header-line (negsuc 0) [] line behind one_line
          ∙ (read_header-break (negsuc 0) (pos n) line (13 ∷ 10 ∷ rest) b'C' (drop 1 start)
                (trim_breaks-plain start (length_line-plain n)) (read_length-decimal n scans)
              ∙ (read_header-longer (pos n) [] 13 (10 ∷ rest) refl
                  ∙ read_header-end (pos n) (13 ∷ []) rest refl)))

-- `back` is what encoding/json makes of a message on the way out and in again; it turns an int64 into a
-- float64.
module _ {Message : Type 0} (F : Format Message) (back : Message → Message) where
  -- The text of the message is read as `back` of it; it is not empty, and its length can be read.
  pub record IsReadable (msg : Message) : Type 0 where
    pub unmarshals : F.unmarshal (F.marshal msg) ≡ some (back msg)
    pub nonempty : F.marshal msg ≢ []
    pub scans :
        F.scan_int (decimal (length (F.marshal msg))) ≡ scanned (pos (length (F.marshal msg)))

  read_body-marshal :
      (payload rest : Text) (msg : Message)
      → payload ≢ []
      → F.unmarshal payload ≡ some msg
      → read_body F (pos (length payload)) (payload ++ rest) ≡ message msg rest
  unfolding read_body
  read_body-marshal [] rest msg nonempty e = absurd (nonempty refl)
  read_body-marshal (c ∷ cs) rest msg nonempty e =
      let fits : leb (length (c ∷ cs)) (length ((c ∷ cs) ++ rest)) ≡ true =
        ground (arith, length-append cs rest) in
      rw (fits, take-length_append cs rest, e, read_body)
        (ap (message msg) (drop-length_append (c ∷ cs) rest))

  frame-append :
      (msg : Message) (rest : Text)
      → let payload = F.marshal msg in
        frame F msg ++ rest
        ≡ text "Content-Length: "
          ++ (decimal (length payload) ++ (text "\r\n\r\n" ++ (payload ++ rest)))
  unfolding frame
  frame-append msg rest =
      ap (λ t. text "Content-Length: " ++ t)
        (append_assoc (decimal (length (F.marshal msg))) (text "\r\n\r\n" ++ F.marshal msg) rest)

  -- The reader finds a message that was written, and goes on behind it.
  pub read_message-frame :
      (msg : Message) (rest : Text)
      → IsReadable msg
      → read_message F (frame F msg ++ rest) ≡ message (back msg) rest
  unfolding read_message
  read_message-frame msg rest h =
      let payload = F.marshal msg in
      ap (λ t. after_header F (read_header F.scan_int (negsuc 0) [] t)) (frame-append msg rest)
      ∙ (ap (after_header F)
            (read_header-frame F.scan_int (length payload) (payload ++ rest) h.scans)
          ∙ read_body-marshal payload rest (back msg) h.nonempty h.unmarshals)

  -- The stream of several messages.
  abbrev pub frames : List Message → Text
  frames [] = []
  frames (msg ∷ msgs) = frame F msg ++ frames msgs

  -- A stream of written messages whose texts encoding/json and fmt.Sscanf can read is read back to its
  -- end, message by message, each as encoding/json reads its text.
  pub read_messages-frames :
      (msgs : List Message) (fuel : ℕ)
      → length msgs < fuel
      → All IsReadable msgs
      → read_messages F fuel (frames msgs) ≡ (map back msgs, end_of_input)
  unfolding read_messages
  read_messages-frames msgs zero h readable = absurd (omega arith)
  read_messages-frames [] (suc fuel) h readable = refl
  read_messages-frames (msg ∷ msgs) (suc fuel) h (readable, later) =
      rw
        (
          read_message-frame msg (frames msgs) readable,
          read_messages-frames msgs fuel (omega arith) later,
          read_messages,
        )
        refl
