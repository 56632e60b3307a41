-- ===== src/Log/File/History.antt =====
-- persist.go, the file as a history: what an append leaves for the next start of the program.
use codex_auth_broker.Log.File.{
  Faults, LogError, LogFile, Repaired, append_entry, compact, ends_line, entry_of, fails, is_entry,
  max_entry_bytes, newline, read_failed, repair_from, repair_tail, repaired, rollback_failed,
  scan_request_log_reader, search_back, seek_failed, stat_failed, too_large, truncate_failed,
  unavailable, unrepaired, with_separator, write_bytes, write_failed, write_line,
}
use codex_auth_broker.Log.File.Append.{
  IsClosed-of, IsOpenLine, IsReady, appended, appended_line, line_start-split, take-all,
}
use codex_auth_broker.Log.File.Tail.{line_start, search_back-line_start}
use codex_auth_broker.Log.File.Scan.{IsClosed, IsCodec, IsOneLine, scan-closed, scan_from-line}
use codex_auth_broker.Prelude.{
  Bool, List, Option, Option-cases, [], ap, append-nil, arith, drop, false, if◌then◌else◌, inl, inr,
  length, length-append, length-take, ltb, none, not, refl, some, sym, take, take-append-drop, true,
  ℕ, ◌&&◌, ◌++◌, ◌+◌, ◌==◌, ◌∙◌, ◌∷◌, ◌≡◌, ◌≢◌, ◌≤◌, ◌⊎◌,
}
use codex_auth_broker.Prelude.Text.{Bytes}
use mathlib.Core.Path.{subst}

module _ {A : Type 0} (parse : Bytes → Option A) (marshal : A → Option Bytes)
    (codec : IsCodec parse marshal) where
  -- What a scan of the file reads.
  abbrev pub history : LogFile → List A
  history f = scan_request_log_reader parse f.content

  -- The file may be appended to, and has the history that it had.
  abbrev Prepares : LogFile → Repaired → Type 0
  Prepares f (unrepaired f' e) = (f' ≡ f) × (e ≢ rollback_failed)
  Prepares f (repaired f' needs) =
      IsReady parse marshal codec f'.content needs
      × (history f' ≡ history f)
      × (f'.max_bytes ≡ f.max_bytes)
      × (length f'.content ≤ length f.content)

  -- A test with its outcome.
  Prepares-if :
      (f : LogFile) (b : Bool) (x y : Repaired)
      → (b ≡ true → Prepares f x)
      → (b ≡ false → Prepares f y)
      → Prepares f (if b then x else y)
  Prepares-if f true x y hx hy = hx refl
  Prepares-if f false x y hx hy = hy refl

  -- A line that is no entry has none.
  entry_of-junk : (s : Bytes) → is_entry parse s ≡ false → entry_of parse s ≡ []
  unfolding entry_of
  entry_of-junk s h = ground (arith, h)

  -- The history at the start of the last line.
  history-split :
      (content : Bytes)
      → let p = line_start content in
        scan_request_log_reader parse content
        ≡ scan_request_log_reader parse (take p content) ++ entry_of parse (drop p content)
  history-split content =
      let p = line_start content in
      let (closed, one) = line_start-split content in
      ap (scan_request_log_reader parse) (sym (take-append-drop p content))
      ∙ scan-closed parse (take p content) (drop p content) closed
      ∙ ap (◌++◌ (scan_request_log_reader parse (take p content)))
          (scan_from-line parse [] (drop p content) one).0

  nil_of : (s : Bytes) → (length s == 0) ≡ true → s ≡ []
  nil_of [] e = refl
  nil_of (c ∷ s) e = absurd (ground (arith, e))

  open_of :
      (content : Bytes)
      → let p = line_start content in
        is_entry parse (drop p content) ≡ true → IsOpenLine parse marshal codec content
  open_of content h =
      let p = line_start content in
      let (closed, one) = line_start-split content in
      entry_case p closed one (Option-cases (parse (drop p content))) h
    where
      entry_case :
          (p : ℕ)
          → IsClosed (take p content)
          → IsOneLine (drop p content)
          → (parse (drop p content) ≡ none) ⊎ ((a : A) × (parse (drop p content) ≡ some a))
          → is_entry parse (drop p content) ≡ true
          → IsOpenLine parse marshal codec content
      entry_case p closed one (inl e) h = absurd (ground (arith, e, h))
      entry_case p closed one (inr (a, e)) h = record {
        front = take p content;
        line = drop p content;
        whole = sym (take-append-drop p content);
        front_closed = closed;
        one_line = one;
        entry = a;
        decoded = e;
        short = ground (arith, h);
      }

  repair_from-Prepares :
      (faults : Faults) (f : LogFile)
      → Prepares f (repair_from parse faults f (line_start f.content))
  unfolding repair_from
  repair_from-Prepares faults f =
      let p = line_start f.content in
      let junk = drop p f.content in
      Prepares-if f (is_entry parse junk) (repaired f true) _
        (λ e. (open_of f.content e, refl, refl, omega arith))
        (λ e.
          Prepares-if f (not faults.truncate_ok) (unrepaired f truncate_failed) _
            (λ x. (refl, λ same. cc same))
            (λ x. (
              (line_start-split f.content).0,
              sym (
                  history-split f.content
                  ∙ ap (◌++◌ (scan_request_log_reader parse (take p f.content)))
                      (entry_of-junk junk e)
                  ∙ append-nil (scan_request_log_reader parse (take p f.content))),
              refl,
              omega (arith, length-take p f.content),
            )))

  repair_tail-Prepares : (faults : Faults) (f : LogFile) → Prepares f (repair_tail parse faults f)
  unfolding repair_tail
  repair_tail-Prepares faults f =
      let c = f.content in
      let found = search_back (length c) c (length c) in
      let at_start : found ≡ line_start c =
        search_back-line_start (length c) c (length c) (omega arith) (omega arith)
        ∙ ap line_start (take-all c) in
      Prepares-if f (not faults.stat_ok) (unrepaired f stat_failed) _ (λ x. (refl, λ same. cc same))
        λ x.
          Prepares-if f (length c == 0) (repaired f false) _
            (λ e. (inl (nil_of c e), refl, refl, omega arith))
            λ e.
              Prepares-if f (not faults.read_ok) (unrepaired f read_failed) _
                (λ y. (refl, λ same. cc same))
                λ y.
                  Prepares-if f (ends_line c) (repaired f false) (repair_from parse faults f found)
                    (λ h. (IsClosed-of c h, refl, refl, omega arith))
                    (λ h.
                      subst (λ p. Prepares f (repair_from parse faults f p)) (sym at_start)
                        (repair_from-Prepares faults f))

  -- What an append may come to: one more entry, or an error and the history as it was. Only where a
  -- write was cut short and could not be taken back there may be more.
  abbrev pub Logs : LogFile → A → LogFile × Option LogError → Type 0
  Logs f a (f', none) = history f' ≡ history f ++ (a ∷ [])
  Logs f a (f', some e) =
      (more : List A) × (history f' ≡ history f ++ more) × ((more ≡ []) ⊎ (e ≡ rollback_failed))

  Logs-if :
      (f : LogFile) (a : A) (b : Bool) (x y : LogFile × Option LogError)
      → (b ≡ true → Logs f a x)
      → (b ≡ false → Logs f a y)
      → Logs f a (if b then x else y)
  Logs-if f a true x y hx hy = hx refl
  Logs-if f a false x y hx hy = hy refl

  -- An error that leaves the history alone.
  refused_Logs :
      (f f' : LogFile) (a : A) (e : LogError) → history f' ≡ history f → Logs f a (fails f' e)
  refused_Logs f f' a e same = ([], same ∙ sym (append-nil (history f)), inl refl)

  write_bytes-Logs :
      (faults : Faults) (f f' : LogFile) (a : A) (encoded : Bytes) (needs : Bool)
      → marshal a ≡ some encoded
      → length encoded ≤ max_entry_bytes
      → IsReady parse marshal codec f'.content needs
      → history f' ≡ history f
      → Logs f a (write_bytes faults f' (with_separator needs (encoded ++ (newline ∷ []))))
  unfolding write_bytes
  write_bytes-Logs faults f f' a encoded needs m short ready same =
      let line = encoded ++ (newline ∷ []) in
      Logs-if f a (faults.write_ok && faults.written == length (with_separator needs line)) _ _
        (λ e.
          appended_line parse marshal codec f'.content a encoded needs m short ready
          ∙ ap (λ x. x ++ (a ∷ [])) same)
        (λ e.
          Logs-if f a faults.rollback_ok (fails f' write_failed) _
            (λ x. refused_Logs f f' a write_failed same)
            (λ x.
              let (more, read) =
                appended parse marshal codec f'.content line needs faults.written ready in
              (more, read ∙ ap (λ h. h ++ more) same, inr refl)))

  -- The entry fits, so that the file need not be compacted.
  abbrev pub HasRoom : LogFile → Bytes → Type 0
  HasRoom f encoded = (f.max_bytes ≡ 0) ⊎ (length f.content + length encoded + 2 ≤ f.max_bytes)

  length-separated :
      (needs : Bool) (encoded : Bytes)
      → length (with_separator needs (encoded ++ (newline ∷ []))) ≤ length encoded + 2
  length-separated true encoded = omega (arith, length-append encoded (newline ∷ []))
  length-separated false encoded = omega (arith, length-append encoded (newline ∷ []))

  no_room :
      (m m' c c' n k : ℕ)
      → (m ≡ 0) ⊎ (c + n + 2 ≤ m)
      → m' ≡ m
      → c' ≤ c
      → k ≤ n + 2
      → (not (m' == 0) && ltb m' (c' + k)) ≡ true
      → ⊥
  no_room m m' c c' n k room same less short e = ground arith

  write_line-Logs :
      (faults : Faults) (f : LogFile) (a : A) (encoded : Bytes) (r : Repaired)
      → marshal a ≡ some encoded
      → length encoded ≤ max_entry_bytes
      → HasRoom f encoded
      → Prepares f r
      → Logs f a (write_line parse marshal faults (encoded ++ (newline ∷ [])) r)
  unfolding write_line
  write_line-Logs faults f a encoded (unrepaired f' e) m short room h =
      refused_Logs f f' a e (ap history h.0)
  write_line-Logs faults f a encoded (repaired f' needs) m short room (ready, same, limit, shrunk) =
      let line = encoded ++ (newline ∷ []) in
      Logs-if f a (not faults.seek_ok) (fails f' seek_failed) _
        (λ x. refused_Logs f f' a seek_failed same)
        (λ x.
          Logs-if f a
            (not (f'.max_bytes == 0)
              && ltb f'.max_bytes (length f'.content + length (with_separator needs line)))
            (compact parse marshal faults f' (some line)) _
            (λ e. absurd (
              no_room f.max_bytes f'.max_bytes (length f.content) (length f'.content)
                (length encoded) (length (with_separator needs line)) room limit shrunk
                (length-separated needs encoded) e))
            (λ e. write_bytes-Logs faults f f' a encoded needs m short ready same))

  -- Appending an entry whose encoding is within the limit of a scan, to a file that has room for it:
  -- either the history that a later scan reads is the earlier one with the entry behind it, or there
  -- is an error and the history is the earlier one, whatever system call fails and however the file
  -- was cut off before. Only if a write is cut short and cannot be taken back, more may follow the
  -- earlier history.
  pub append_entry-Logs :
      (faults : Faults) (f : LogFile) (a : A) (encoded : Bytes)
      → marshal a ≡ some encoded
      → length encoded ≤ max_entry_bytes
      → HasRoom f encoded
      → Logs f a (append_entry parse marshal faults a f)
  unfolding append_entry
  append_entry-Logs faults f a encoded m short room =
      let line = encoded ++ (newline ∷ []) in
      rw (m, append_entry)
        (Logs-if f a (not faults.opened) (fails f unavailable) _
          (λ x. refused_Logs f f a unavailable refl)
          (λ x.
            Logs-if f a (not (f.max_bytes == 0) && ltb f.max_bytes (length line))
              (fails f too_large) _ (λ e. refused_Logs f f a too_large refl)
              (λ e.
                write_line-Logs faults f a encoded (repair_tail parse faults f) m short room
                  (repair_tail-Prepares faults f))))
