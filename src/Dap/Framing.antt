-- ===== src/Dap/Framing.antt =====
-- The framing of messages in cmd/exec-history-dap/serve.go: writeDAPMessage, readDAPMessage and
-- the loop of Run. A stream is a list of bytes. encoding/json, and fmt.Sscanf with the verb
-- %d, are arguments.
use ojs_conformance.Common.{
  ℕ, zero, suc, Text, text, ℤ, pos, negsuc, Bool, true, false, ◌||◌, List, [], ◌∷◌, ◌++◌, reverse,
  Option, none, some, ◌==◌, ltb_ℤ, leb, length, take, drop, decimal, has_prefix, trim_space,
  if◌then◌else◌,
}

-- What fmt.Sscanf finds: a number, or an error; the flag says whether errors.Is(err, io.EOF).
pub data Scan : Type 0 where
  not_scanned : Bool → Scan
  scanned : ℤ → Scan

pub record Format (Message : Type 0) : Type 0 where
  pub marshal : Message → Text
  pub unmarshal : Text → Option Message
  pub scan_int : Text → Scan

abbrev pub content_length : Text
content_length = text "Content-Length:"

-- writeDAPMessage and emitter.writeMessage: the bytes that are written.
unfoldable pub frame : {Message : Type 0} → Format Message → Message → Text
unfolding decimal
frame F msg =
    let payload = F.marshal msg in
    text "Content-Length: " ++ (decimal (length payload) ++ (text "\r\n\r\n" ++ payload))

unfoldable pub drop_breaks : Text → Text
drop_breaks [] = []
drop_breaks (c ∷ cs) = let rest = drop_breaks cs in if c == 13 || c == 10 then rest else c ∷ cs

-- strings.TrimRight(line, "\r\n")
unfoldable pub trim_breaks : Text → Text
unfolding drop_breaks
trim_breaks s = reverse (drop_breaks (reverse s))

pub data Header : Type 0 where
  -- the content length, and the bytes behind the headers
  header : ℤ → Text → Header
  -- io.EOF, before any header
  ended : Header
  -- any other error, and whether it is or wraps io.EOF
  bad_header : Bool → Header

-- The content length after a line that is not empty.
unfoldable pub read_length : (Text → Scan) → ℤ → Text → Scan
unfolding has_prefix trim_space
read_length scan_int len line =
    if has_prefix line content_length
    then scan_int (trim_space (drop (length content_length) line))
    else scanned len

-- The loop over the header lines, from the content length and the line so far.
unfoldable pub read_header : (Text → Scan) → ℤ → Text → Text → Header
unfolding trim_breaks read_length
read_header scan_int len line [] = elim line [
  | [] ↦ if ltb_ℤ len (pos 0) then ended else bad_header false
  | _ ∷ _ ↦ bad_header false
]
read_header scan_int len line (c ∷ cs) =
    let longer = read_header scan_int len (line ++ c ∷ []) cs in
    let next : ℤ → Header = λ l. read_header scan_int l [] cs in
    if c == 10
    then elim (trim_breaks line) [
      | [] ↦ header len cs
      | d ∷ ds ↦ elim (read_length scan_int len (d ∷ ds)) [
        | not_scanned eof ↦ bad_header eof
        | scanned l ↦ next l
      ]
    ]
    else longer

-- The loop over the header lines in ReadDAPMessages (cmd/exec-history-dap/main.go), which takes the
-- end of the input between two lines for the end of the stream, and returns io.EOF inside a line.
unfoldable pub read_dap_header : (Text → Scan) → ℤ → Text → Text → Header
unfolding trim_breaks read_length
read_dap_header scan_int len line [] = elim line [ [] ↦ ended | _ ∷ _ ↦ bad_header true ]
read_dap_header scan_int len line (c ∷ cs) =
    let longer = read_dap_header scan_int len (line ++ c ∷ []) cs in
    let next : ℤ → Header = λ l. read_dap_header scan_int l [] cs in
    if c == 10
    then elim (trim_breaks line) [
      | [] ↦ header len cs
      | d ∷ ds ↦ elim (read_length scan_int len (d ∷ ds)) [
        | not_scanned eof ↦ bad_header eof
        | scanned l ↦ next l
      ]
    ]
    else longer

pub data Read (Message : Type 0) : Type 0 where
  -- the message, and the bytes behind it
  message : Message → Text → Read Message
  end_of_input : Read Message
  -- any other error, and whether it is or wraps io.EOF
  bad_input : Bool → Read Message

-- io.ReadFull fails on too few bytes: with io.EOF if there is none, else with io.ErrUnexpectedEOF.
abbrev pub too_short : {Message : Type 0} → Text → Read Message
too_short [] = bad_input true
too_short (c ∷ cs) = bad_input false

module _ {Message : Type 0} (F : Format Message) where
  -- The body behind the headers.
  unfoldable pub read_body : ℤ → Text → Read Message
  read_body (negsuc n) rest = bad_input false
  read_body (pos zero) rest = bad_input false
  read_body (pos (suc n)) rest =
      if leb (suc n) (length rest)
      then elim (F.unmarshal (take (suc n) rest)) [
        | none ↦ bad_input false
        | some m ↦ message m (drop (suc n) rest)
      ]
      else too_short rest

  abbrev pub after_header : Header → Read Message
  after_header (header len rest) = read_body len rest
  after_header ended = end_of_input
  after_header (bad_header eof) = bad_input eof

  -- readDAPMessage
  unfoldable pub read_message : Text → Read Message
  unfolding read_header read_body
  read_message input = after_header (read_header F.scan_int (negsuc 0) [] input)

  -- What Run returns after an error: nil if errors.Is(err, io.EOF).
  abbrev pub run_end : Bool → Read Message
  run_end true = end_of_input
  run_end false = bad_input false

  -- The loop of Run that reads messages until the input ends, on fuel: the messages, and end_of_input
  -- where the error is nil.
  unfoldable pub read_messages : ℕ → Text → List Message × Read Message
  unfolding read_message
  read_messages zero input = ([], bad_input false)
  read_messages (suc fuel) input = elim (read_message input) [
    | end_of_input ↦ ([], end_of_input)
    | bad_input eof ↦ ([], run_end eof)
    | message m rest ↦ let later = read_messages fuel rest in (m ∷ later.0, later.1)
  ]

  unfoldable pub read_dap_message : Text → Read Message
  unfolding read_dap_header read_body
  read_dap_message input = after_header (read_dap_header F.scan_int (pos 0) [] input)

  -- ReadDAPMessages, on fuel: the messages, and end_of_input where the error is nil.
  unfoldable pub read_dap_messages : ℕ → Text → List Message × Read Message
  unfolding read_dap_message
  read_dap_messages zero input = ([], bad_input false)
  read_dap_messages (suc fuel) input = elim (read_dap_message input) [
    | end_of_input ↦ ([], end_of_input)
    | bad_input eof ↦ ([], bad_input eof)
    | message m rest ↦ let later = read_dap_messages fuel rest in (m ∷ later.0, later.1)
  ]
