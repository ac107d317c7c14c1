-- ===== src/Dap/Readers.antt =====
-- The two readers of cmd/exec-history-dap: readDAPMessage with the loop of Run (serve.go), and
-- ReadDAPMessages (main.go).
use ojs_conformance.Common.{ℤ, pos, negsuc, ◌≡◌, ◌⊎◌, true, false}
use ojs_conformance.Dap.Framing.{Format, Read, end_of_input, bad_input}

-- The content lengths of the two readers: the same, or the ones that they start with.
abbrev Lengths : ℤ → ℤ → Type 0
Lengths m n = (m ≡ n) ⊎ ((m ≡ pos 0) × (n ≡ negsuc 0))

module _ {Message : Type 0} (F : Format Message) where
  -- What ReadDAPMessages and the server make of the same bytes: the same, or an error of the server
  -- where the other finds the end, or io.EOF inside a line.
  abbrev Alike : Read Message → Read Message → Type 0
  Alike r s = (r ≡ s) ⊎ (((r ≡ end_of_input) ⊎ (r ≡ bad_input true)) × (s ≡ bad_input false))

  -- The ends of a stream for ReadDAPMessages and for the loop of Run: the same; a body without a byte,
  -- which Run takes for the end; or the end of the input behind or inside a header line, which Run
  -- refuses.
  abbrev pub EndsAlike : Read Message → Read Message → Type 0
  EndsAlike r s =
      (r ≡ s)
      ⊎ (((r ≡ bad_input true) × (s ≡ end_of_input))
          ⊎ (((r ≡ end_of_input) ⊎ (r ≡ bad_input true)) × (s ≡ bad_input false)))
