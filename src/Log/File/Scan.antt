-- ===== src/Log/File/Scan.antt =====
-- persist.go, `scanRequestLogReader`: the entries of a file are those of its complete lines, and of
-- what stands behind them.
use codex_auth_broker.Log.File.{
  cut_return, entry_of, last_newline, newline, scan_from, scan_request_log_reader, trim_cr,
}
use codex_auth_broker.Prelude.{
  Bool-cases, Option, [], ap, append-nil, append_assoc, arith, false, inl, inr, none, refl, some,
  sym, ℕ, ◌++◌, ◌==◌, ◌∙◌, ◌∷◌, ◌≡◌, ◌⊎◌,
}
use codex_auth_broker.Prelude.Text.{Bytes}

module _ {ℓ} {A : Type ℓ} (parse : Bytes → Option A) where
  -- What stands behind a newline is scanned anew.
  pub scan_from-newline :
      (line s t : Bytes)
      → scan_from parse line (s ++ (newline ∷ t))
        ≡ scan_from parse line (s ++ (newline ∷ [])) ++ scan_request_log_reader parse t
  unfolding scan_from entry_of
  scan_from-newline line [] t = sym (
      ap (λ e. e ++ scan_request_log_reader parse t)
        (append-nil (entry_of parse (cut_return line))))
  scan_from-newline line (c ∷ s) t = elim (Bool-cases (c == newline)) [
    | inl e ↦
        rw (e, scan_from)
          (ap (◌++◌ (entry_of parse (cut_return line))) (scan_from-newline [] s t)
            ∙ sym (append_assoc (entry_of parse (cut_return line)) _ _))
    | inr e ↦ rw (e, scan_from) (scan_from-newline (line ++ (c ∷ [])) s t)
  ]

-- The text is empty or ends with a newline.
abbrev pub IsClosed : Bytes → Type 0
IsClosed content = (content ≡ []) ⊎ ((front : Bytes) × (content ≡ front ++ (newline ∷ [])))

-- No newline stands in the text.
abbrev pub IsOneLine : Bytes → Type 0
IsOneLine s = last_newline s ≡ none

IsOneLine-rest : (c : ℕ) (s : Bytes) → IsOneLine (c ∷ s) → ((c == newline) ≡ false) × IsOneLine s
unfolding last_newline
IsOneLine-rest c s one = ground (arith, one)

module _ {ℓ} {A : Type ℓ} (parse : Bytes → Option A) where
  -- What is appended to complete lines is scanned by itself.
  pub scan-closed :
      (content s : Bytes)
      → IsClosed content
      → scan_request_log_reader parse (content ++ s)
        ≡ scan_request_log_reader parse content ++ scan_request_log_reader parse s
  scan-closed content s (inl e) = rw e (unfold scan_from entry_of in refl)
  scan-closed content s (inr (front, e)) = rw e (
      ap (scan_request_log_reader parse) (append_assoc front (newline ∷ []) s)
      ∙ scan_from-newline parse [] front s)

  -- A line without newline is scanned as a whole.
  pub scan_from-line :
      (line s : Bytes)
      → IsOneLine s
      → (scan_from parse line s ≡ entry_of parse (line ++ s))
        × (scan_from parse line (s ++ (newline ∷ [])) ≡ entry_of parse (cut_return (line ++ s)))
  unfolding scan_from last_newline entry_of
  scan_from-line line [] one = (
    ap (entry_of parse) (sym (append-nil line)),
    append-nil (entry_of parse (cut_return line))
        ∙ ap (λ l. entry_of parse (cut_return l)) (sym (append-nil line)),
  )
  scan_from-line line (c ∷ s) one =
      let (other, rest) = IsOneLine-rest c s one in
      let (open_line, closed_line) = scan_from-line (line ++ (c ∷ [])) s rest in
      let same = append_assoc line (c ∷ []) s in
      rw (other, scan_from)
        (
          open_line ∙ ap (entry_of parse) same,
          closed_line ∙ ap (λ l. entry_of parse (cut_return l)) same,
        )

-- What the encoding of entries promises: an entry is one line, and is decoded again; blank input is
-- no entry, and a carriage return at the end is a blank.
pub record IsCodec {ℓ} {A : Type ℓ} (parse : Bytes → Option A) (marshal : A → Option Bytes)
    : Type ℓ where
  pub one_line : (a : A) (s : Bytes) → marshal a ≡ some s → IsOneLine s
  pub decodes : (a : A) (s : Bytes) → marshal a ≡ some s → parse s ≡ some a
  pub nothing : parse [] ≡ none
  pub blank : (s : Bytes) → parse (trim_cr s) ≡ parse s
