-- ===== src/Audit/Chain.antt =====
-- `append`, `verify` and `open` together: the file of a log that only `append` has written.
use mathlib.Core.Path.{subst}
use mathlib.Core.List.{append-nil}
use iot_athome.Prelude.{
  All, ap, take, ℕ, ◌+◌, ◌%◌, ◌^◌, ◌≡◌, ◌⊎◌, refl, sym, ◌∙◌, true, false, inl, inr, Option-cases,
  Result-cases, List, [], ◌∷◌, ◌++◌, arith, Bool-cases, Text, text_eq_refl, length, is_empty, some,
  none, Option, ok, err, ◌>>=◌, hex_encode,
}
use iot_athome.Audit.{
  AuditCrates, AuditLaws, AuditLog, Checked, Expected, hash_entry, hash_input, read_lines, is_blank,
  parse_line, verify_entry, verify_lines, verify, replay_lines, replay_tail, open_log, contents,
  append_line, next_seq, new_entry, append, Writes, unopened, complete, cut, rendered, hashed,
}
use iot_athome.Audit.Lines.{
  terminated, terminated-append, read_lines-append, parse_line-to_string, is_blank-to_string,
}

-- A call of `append`: how far its writes come, the time, the kind and the payload.
pub record Request (V : Type 0) : Type 0 where
  pub written : Writes
  pub at : ℕ
  pub kind : Text
  pub payload : V

pub hex_encode_nonempty : (bytes : List ℕ) → length bytes ≡ 32 → is_empty (hex_encode bytes) ≡ false
unfolding hex_encode
hex_encode_nonempty [] h = ground arith
hex_encode_nonempty (b ∷ bytes) h = refl

-- What `open` makes of a path without a file.
abbrev pub fresh : AuditLog
fresh = record { disk = none; last_seq = 0; last_hash = [] }

-- The log once the line is written and the new hash kept.
abbrev after_entry : AuditLog → Text → Text → AuditLog
after_entry log line h = record {
  disk = append_line log.disk line;
  last_seq = next_seq log;
  last_hash = h;
}

-- The writes succeed, or fail before the first byte of the line.
abbrev pub IsWhole : Writes → Type 0
IsWhole unopened = Unit
IsWhole complete = Unit
IsWhole (cut n) = n ≡ 0

module _ (c : AuditCrates) where
  -- The log after the requests, of which the first one is served first.
  unfoldable pub serve : List (Request c.Value) → AuditLog → AuditLog
  serve [] log = log
  serve (r ∷ rs) log = serve rs (append c r.written r.at r.kind r.payload log).1

module _ (c : AuditCrates) (laws : AuditLaws c) where
  pub hash_entry_nonempty :
      (prev kind : Text) (p : c.Value) (h : Text)
      → hash_entry c prev kind p ≡ ok h
      → is_empty h ≡ false
  unfolding hash_entry hex_encode
  hash_entry_nonempty prev kind p h e = elim (Option-cases (c.jcs p)) [
    | inl none_ ↦ ground (arith, none_)
    | inr (canonical, j) ↦ ground (
      arith,
      j,
      hex_encode_nonempty (c.sha256 (hash_input c prev kind canonical)) (laws.digest_length _),
    )
  ]

  -- The file of the log is whole lines, `verify` accepts it and expects what the log will append
  -- next, and a replay of it finds the state that the log has.
  pub record IsValid (log : AuditLog) : Type 0 where
    pub whole : terminated (contents log.disk) ≡ true
    pub verified :
        verify_lines c (read_lines (contents log.disk)) (0, []) ≡ ok (next_seq log, log.last_hash)
    pub replayed :
        replay_lines c (read_lines (contents log.disk)) 0 [] ≡ ok (log.last_seq, log.last_hash)

  verify_lines-append :
      (ls : List Text) (line : Text) (x : Expected)
      → verify_lines c (ls ++ line ∷ []) x
        ≡ (verify_lines c ls x >>= λ y. verify_lines c (line ∷ []) y)
  unfolding verify_lines
  verify_lines-append [] line x = refl
  verify_lines-append (l ∷ ls) line x = elim (Result-cases (parse_line c l)) [
    | inr (e, bad) ↦ rw bad refl
    | inl (e, good) ↦ rw good (elim (Result-cases (verify_entry c e x)) [
      | inr (e, bad) ↦ rw bad refl
      | inl (y, next) ↦ rw next (verify_lines-append ls line y)
    ])
  ]

  replay_lines-append :
      (ls : List Text) (line : Text) (n : ℕ) (h : Text)
      → replay_lines c (ls ++ line ∷ []) n h
        ≡ (replay_lines c ls n h >>= λ (m, g). replay_lines c (line ∷ []) m g)
  unfolding replay_lines
  replay_lines-append [] line n h = refl
  replay_lines-append (l ∷ ls) line n h = elim (Bool-cases (is_blank l)) [
    | inl skip ↦ rw skip (replay_lines-append ls line n h)
    | inr full ↦ rw full (elim (Result-cases (parse_line c l)) [
      | inr (e, bad) ↦ rw bad refl
      | inl (e, good) ↦ rw good (replay_lines-append ls line e.seq e.hash)
    ])
  ]

  verify_entry-new :
      (log : AuditLog) (at : ℕ) (kind : Text) (p : c.Value) (h : Text)
      → hash_entry c log.last_hash kind p ≡ ok h
      → verify_entry c (new_entry c log at kind p h) (next_seq log, log.last_hash)
        ≡ ok ((next_seq log + 1) % 2 ^ 64, h)
  unfolding verify_entry
  verify_entry-new log at kind p h e = ground (arith, text_eq_refl log.last_hash, e, text_eq_refl h)

  last-verified :
      (log : AuditLog) (at : ℕ) (kind : Text) (p : c.Value) (h line : Text)
      → hash_entry c log.last_hash kind p ≡ ok h
      → is_empty h ≡ false
      → parse_line c line ≡ ok (new_entry c log at kind p h)
      → verify_lines c (line ∷ []) (next_seq log, log.last_hash)
        ≡ ok (next_seq (after_entry log line h), h)
  unfolding verify_lines
  last-verified log at kind p h line hashed full parsed =
      rw parsed (rw (verify_entry-new log at kind p h hashed) (rw full refl))

  entry-IsValid :
      (log : AuditLog) (at : ℕ) (kind : Text) (p : c.Value) (h line : Text)
      → IsValid log
      → hash_entry c log.last_hash kind p ≡ ok h
      → c.to_string (new_entry c log at kind p h) ≡ some line
      → IsValid (after_entry log line h)
  unfolding replay_lines
  entry-IsValid log at kind p h line v hashed text =
      let lines = read_lines-append (contents log.disk) line v.whole (laws.one_line _ line text) in
      let full = hash_entry_nonempty log.last_hash kind p h hashed in
      let parsed = parse_line-to_string c laws _ line text in
      record {
        whole = terminated-append (contents log.disk) line;
        verified = rw lines (
            verify_lines-append (read_lines (contents log.disk)) line (0, [])
            ∙ rw v.verified (last-verified log at kind p h line hashed full parsed));
        replayed = rw lines (
            replay_lines-append (read_lines (contents log.disk)) line 0 []
            ∙ rw v.replayed (rw (is_blank-to_string c laws _ line text) (rw parsed refl)));
      }

  same_contents-IsValid :
      (log : AuditLog) (file : Text)
      → contents log.disk ≡ file
      → IsValid log
      → IsValid (record log { disk = some file })
  same_contents-IsValid log file e v = record {
    whole = subst (λ s. terminated s ≡ true) e v.whole;
    verified =
        subst (λ s. verify_lines c (read_lines s) (0, []) ≡ ok (next_seq log, log.last_hash)) e
          v.verified;
    replayed =
        subst (λ s. replay_lines c (read_lines s) 0 [] ≡ ok (log.last_seq, log.last_hash)) e
          v.replayed;
  }

  rendered-IsValid :
      (w : Writes) (at : ℕ) (kind : Text) (p : c.Value) (log : AuditLog) (h : Text)
      (o : Option Text)
      → IsWhole w
      → IsValid log
      → hash_entry c log.last_hash kind p ≡ ok h
      → c.to_string (new_entry c log at kind p h) ≡ o
      → IsValid (rendered c w log (new_entry c log at kind p h) o).1
  unfolding take
  rendered-IsValid w at kind p log h none whole v good e = v
  rendered-IsValid complete at kind p log h (some line) whole v good e =
      entry-IsValid log at kind p h line v good e
  rendered-IsValid unopened at kind p log h (some line) whole v good e = v
  rendered-IsValid (cut n) at kind p log h (some line) whole v good e =
      same_contents-IsValid log (contents log.disk ++ take n (line ++ b'\n' ∷ []))
        (sym (
          ap (λ k. contents log.disk ++ take k (line ++ b'\n' ∷ [])) whole
          ∙ append-nil (contents log.disk)))
        v

  hashed-IsValid :
      (w : Writes) (at : ℕ) (kind : Text) (p : c.Value) (log : AuditLog) (r : Checked Text)
      → IsWhole w
      → IsValid log
      → hash_entry c log.last_hash kind p ≡ r
      → IsValid (hashed c w at kind p log r).1
  hashed-IsValid w at kind p log (err x) whole v e = v
  hashed-IsValid w at kind p log (ok h) whole v e =
      rendered-IsValid w at kind p log h (c.to_string (new_entry c log at kind p h)) whole v e refl

  pub append-IsValid :
      (w : Writes) (at : ℕ) (kind : Text) (p : c.Value) (log : AuditLog)
      → IsWhole w
      → IsValid log
      → IsValid (append c w at kind p log).1
  unfolding append
  append-IsValid w at kind p log whole v = hashed-IsValid w at kind p log _ whole v refl

  pub serve-IsValid :
      (rs : List (Request c.Value)) (log : AuditLog)
      → All (λ r. IsWhole r.written) rs
      → IsValid log
      → IsValid (serve c rs log)
  unfolding serve
  serve-IsValid [] log whole v = v
  serve-IsValid (r ∷ rs) log whole v =
      serve-IsValid rs (append c r.written r.at r.kind r.payload log).1 whole.1
        (append-IsValid r.written r.at r.kind r.payload log whole.0 v)

  reopened :
      (disk : Option Text) (n : ℕ) (h : Text)
      → IsValid (record { disk = disk; last_seq = n; last_hash = h })
      → open_log c disk ≡ ok (record { disk = disk; last_seq = n; last_hash = h })
  unfolding open_log replay_tail read_lines replay_lines
  reopened none n h v = ground (arith, v.replayed)
  reopened (some file) n h v = rw v.replayed refl

  accepted :
      (disk : Option Text) (n : ℕ) (h : Text)
      → IsValid (record { disk = disk; last_seq = n; last_hash = h })
      → (disk ≡ none) ⊎ (verify c disk ≡ ok tt)
  unfolding verify
  accepted none n h v = inl refl
  accepted (some file) n h v = inr (rw v.verified refl)

  fresh-IsValid : IsValid fresh
  unfolding read_lines verify_lines replay_lines
  fresh-IsValid = record { whole = refl; verified = refl; replayed = refl }

  -- Whatever calls of `append` a log has served since its file did not exist, failed ones among
  -- them as long as the failure came before the first byte of the line was written, the file passes
  -- `verify` (or still does not exist), and a process that opens the file continues with exactly the
  -- sequence number and hash that the writer had.
  pub serve_accepted :
      (rs : List (Request c.Value))
      → All (λ r. IsWhole r.written) rs
      → ((serve c rs fresh).disk ≡ none ⊎ verify c (serve c rs fresh).disk ≡ ok tt)
        × (open_log c (serve c rs fresh).disk ≡ ok (serve c rs fresh))
  serve_accepted rs whole =
      let v = serve-IsValid rs fresh whole fresh-IsValid in
      let log = serve c rs fresh in
      (
        accepted log.disk log.last_seq log.last_hash v,
        reopened log.disk log.last_seq log.last_hash v,
      )
