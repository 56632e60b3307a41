-- ===== src/Log/File/Append.antt =====
-- persist.go: an append adds one entry to those that a later scan reads, or none.
use codex_auth_broker.Log.File.{
  cut_return, ends_line, entry_of, last_newline, max_entry_bytes, newline, scan_request_log_reader,
  with_separator,
}
use codex_auth_broker.Log.File.Scan.{
  IsClosed, IsCodec, IsOneLine, scan-closed, scan_from-line, scan_from-newline,
}
use codex_auth_broker.Log.File.Tail.{line_start}
use codex_auth_broker.Sse.{trim_cr}
use codex_auth_broker.Prelude.{
  Bool, List, Option, Option-cases, [], ap, append-nil, append_assoc, arith, drop, false, inl, inr,
  length, ltb, refl, some, suc, sym, take, true, zero, ℕ, ◌++◌, ◌+◌, ◌==◌, ◌∙◌, ◌∷◌, ◌≡◌, ◌≤◌,
}
use codex_auth_broker.Prelude.Text.{Bytes}

pub take-all : (s : Bytes) → take (length s) s ≡ s
take-all [] = refl
take-all (c ∷ s) = ap (◌∷◌ c) (take-all s)

-- The text up to its last newline, and what is behind it.
last_newline-split :
    (content : Bytes) (i : ℕ)
    → last_newline content ≡ some i
    → (take (suc i) content ≡ take i content ++ (newline ∷ [])) × IsOneLine (drop (suc i) content)
unfolding last_newline
last_newline-split [] i h = cc h
last_newline-split (c ∷ s) i h = elim (Option-cases (last_newline s)) [
  | inr (j, e) ↦
      let behind : i ≡ suc j = ground (arith, h, e) in
      let (front, rest) = last_newline-split s j e in rw behind (ap (◌∷◌ c) front, rest)
  | inl e ↦
      let first : i ≡ 0 = ground (arith, h, e) in
      let ends : c ≡ newline = ground (arith, h, e) in rw first (ap (λ x. x ∷ []) ends, e)
]

-- The start of the last line cuts a text in complete lines and one line.
pub line_start-split :
    (content : Bytes)
    → IsClosed (take (line_start content) content) × IsOneLine (drop (line_start content) content)
unfolding line_start
line_start-split content = elim (Option-cases (last_newline content)) [
  | inl e ↦ rw (e, line_start) (inl refl, e)
  | inr (i, e) ↦
      let next : i + 1 ≡ suc i = omega arith in
      let (front, rest) = last_newline-split content i e in
      rw (e, line_start, next) (inr (take i content, front), rest)
]

pub IsClosed-of : (content : Bytes) → ends_line content ≡ true → IsClosed content
IsClosed-of content h = elim (Option-cases (last_newline content)) [
  | inl e ↦ absurd (ground (arith, h, e))
  | inr (i, e) ↦
      let whole : suc i ≡ length content = ground (arith, h, e) in
      inr (
        take i content,
        sym (take-all content)
            ∙ ap (λ n. take n content) (sym whole)
            ∙ (last_newline-split content i e).0,
      )
]

trim_cr_shorter : (s : Bytes) → length (trim_cr s) ≤ length s
unfolding trim_cr
trim_cr_shorter [] = omega arith
trim_cr_shorter (c ∷ []) = ground arith
trim_cr_shorter (c ∷ (d ∷ s)) = omega (arith, trim_cr_shorter (d ∷ s))

module _ {A : Type 0} (parse : Bytes → Option A) (marshal : A → Option Bytes)
    (codec : IsCodec parse marshal) where
  -- A line whose entry can be decoded.
  entry_of-decoded :
      (s : Bytes) (a : A)
      → parse s ≡ some a
      → length s ≤ max_entry_bytes
      → entry_of parse (cut_return s) ≡ a ∷ []
  unfolding entry_of
  entry_of-decoded s a h short =
      let decoded : parse (trim_cr s) ≡ some a = codec.blank s ∙ h in
      let present = nonempty (trim_cr s) decoded in
      let fits : ltb max_entry_bytes (length (trim_cr s)) ≡ false =
        ground (arith, trim_cr_shorter s, short) in
      rw (present, fits, decoded) refl
    where
      nonempty : (t : Bytes) → parse t ≡ some a → (length t == 0) ≡ false
      nonempty [] d = absurd (cc (codec.nothing, d))
      nonempty (c ∷ t) d = ground arith

  -- A text whose last line is an entry without a newline.
  pub record IsOpenLine (content : Bytes) : Type 0 where
    pub front : Bytes
    pub line : Bytes
    pub whole : content ≡ front ++ line
    pub front_closed : IsClosed front
    pub one_line : IsOneLine line
    pub entry : A
    pub decoded : parse line ≡ some entry
    pub short : length line ≤ max_entry_bytes

  entry_of-whole :
      (s : Bytes) (a : A)
      → parse s ≡ some a
      → length s ≤ max_entry_bytes
      → entry_of parse s ≡ a ∷ []
  unfolding entry_of
  entry_of-whole [] a h short = absurd (cc (codec.nothing, h))
  entry_of-whole (c ∷ s) a h short =
      let fits : ltb max_entry_bytes (length (c ∷ s)) ≡ false = ground (arith, short) in
      let present : (length (c ∷ s) == 0) ≡ false = ground arith in rw (present, fits, h) refl

  closed_line :
      {content : Bytes} (h : IsOpenLine content)
      → scan_request_log_reader parse (h.line ++ (newline ∷ []))
        ≡ scan_request_log_reader parse h.line
  closed_line h =
      let (plain, closed) = scan_from-line parse [] h.line h.one_line in
      closed
      ∙ entry_of-decoded h.line h.entry h.decoded h.short
      ∙ sym (plain ∙ entry_of-whole h.line h.entry h.decoded h.short)

  -- A newline closes such a line.
  scan-separated :
      (content s : Bytes)
      → IsOpenLine content
      → scan_request_log_reader parse (content ++ (newline ∷ s))
        ≡ scan_request_log_reader parse content ++ scan_request_log_reader parse s
  scan-separated content s h =
      let front_scan = scan_request_log_reader parse h.front in
      let rest_scan = scan_request_log_reader parse s in
      rw h.whole (
        ap (scan_request_log_reader parse) (append_assoc h.front h.line (newline ∷ s))
        ∙ scan-closed parse h.front (h.line ++ (newline ∷ s)) h.front_closed
        ∙ ap (◌++◌ front_scan)
            (scan_from-newline parse [] h.line s ∙ ap (λ x. x ++ rest_scan) (closed_line h))
        ∙ sym (append_assoc front_scan (scan_request_log_reader parse h.line) rest_scan)
        ∙ ap (λ x. x ++ rest_scan) (sym (scan-closed parse h.front h.line h.front_closed)))

  -- What may be appended to.
  abbrev pub IsReady : Bytes → Bool → Type 0
  IsReady content true = IsOpenLine content
  IsReady content false = IsClosed content

  -- What is scanned of appended bytes, as far as they were written.
  pub appended :
      (content line : Bytes) (needs : Bool) (n : ℕ)
      → IsReady content needs
      → (more : List A) × (scan_request_log_reader parse
            (content ++ take n (with_separator needs line))
          ≡ scan_request_log_reader parse content ++ more)
  appended content line false n h =
      (scan_request_log_reader parse (take n line), scan-closed parse content (take n line) h)
  appended content line true zero h =
      ([], ap (scan_request_log_reader parse) (append-nil content) ∙ sym (append-nil _))
  appended content line true (suc n) h =
      (scan_request_log_reader parse (take n line), scan-separated content (take n line) h)

  entry_line :
      (a : A) (encoded : Bytes)
      → marshal a ≡ some encoded
      → length encoded ≤ max_entry_bytes
      → scan_request_log_reader parse (encoded ++ (newline ∷ [])) ≡ a ∷ []
  entry_line a encoded m short =
      (scan_from-line parse [] encoded (codec.one_line a encoded m)).1
      ∙ entry_of-decoded encoded a (codec.decodes a encoded m) short

  -- The whole of an entry's line.
  pub appended_line :
      (content : Bytes) (a : A) (encoded : Bytes) (needs : Bool)
      → marshal a ≡ some encoded
      → length encoded ≤ max_entry_bytes
      → IsReady content needs
      → scan_request_log_reader parse (content ++ with_separator needs (encoded ++ (newline ∷ [])))
        ≡ scan_request_log_reader parse content ++ (a ∷ [])
  appended_line content a encoded false m short h =
      scan-closed parse content (encoded ++ (newline ∷ [])) h
      ∙ ap (◌++◌ (scan_request_log_reader parse content)) (entry_line a encoded m short)
  appended_line content a encoded true m short h =
      scan-separated content (encoded ++ (newline ∷ [])) h
      ∙ ap (◌++◌ (scan_request_log_reader parse content)) (entry_line a encoded m short)
