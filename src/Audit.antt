-- ===== src/Audit.antt =====
-- crates/iot-audit/src/lib.rs: the append-only, hash-chained log. Its file is UTF-8 text on disk,
-- and the writes of a line may stop at any byte.
pub mod Lines
pub mod Chain
pub mod Entries
pub mod Tamper
mod Samples
use iot_athome.Prelude.{
  ℕ, suc, All, ◌<◌, ◌+◌, ◌%◌, ◌^◌, ◌≡◌, lacks, length, List, [], ◌∷◌, ◌++◌, Bool, true, not, ◌&&◌,
  ◌||◌, Option, some, none, Text, codes, text_eq, leb, ◌==◌, if◌then◌else◌, Result, ok, err, ◌>>=◌,
  ◌>>◌, is_empty, hex_encode, trim_end, take,
}

pub record Entry (V : Type 0) : Type 0 where
  pub seq : ℕ
  pub prev : Text
  pub at : ℕ
  pub kind : Text
  pub payload : V
  pub hash : Text

-- What the log calls of other crates: serde_json's values and its text form of an entry, serde_jcs's
-- canonical text of a value, and ring's SHA-256.
pub record AuditCrates : Type 1 where
  pub Value : Type 0
  pub jcs : Value → Option Text
  -- the value as RFC 8785 reads it: each number as a double
  pub i_json : Value → Value
  pub sha256 : Text → List ℕ
  pub to_string : Entry Value → Option Text
  pub from_str : Text → Option (Entry Value)

-- What the log relies on: an entry's text is one line that ends in a brace and reads back as the
-- entry, a canonical text determines its value up to what RFC 8785 reads as one number, and a digest
-- has 32 bytes, each below 256.
pub record AuditLaws (c : AuditCrates) : Type 0 where
  pub one_line :
      (e : Entry c.Value) (line : Text) → c.to_string e ≡ some line → lacks b'\n' line ≡ true
  pub closed :
      (e : Entry c.Value) (line : Text)
      → c.to_string e ≡ some line
      → (body : Text) × (line ≡ body ++ b'}' ∷ [])
  pub reads_back :
      (e : Entry c.Value) (line : Text) → c.to_string e ≡ some line → c.from_str line ≡ some e
  pub canonical :
      (v w : c.Value) (s : Text) → c.jcs v ≡ some s → c.jcs w ≡ some s → c.i_json v ≡ c.i_json w
  pub digest_length : (x : Text) → length (c.sha256 x) ≡ 32
  pub digest_bytes : (x : Text) → All (λ b. b < 256) (c.sha256 x)

-- What a broken chain shows as expected or actual: `seq {n}`, or a hash.
pub data Shown : Type 0 where
  number : ℕ → Shown
  digest : Text → Shown

pub data AuditError : Type 0 where
  io json : AuditError
  chain_broken : ℕ → Shown → Shown → AuditError

abbrev pub Checked {ℓ} : Type ℓ → Type ℓ
Checked A = Result AuditError A

-- BufReader::read_line until it reads nothing, each line without its newline.
abbrev pub push_byte : ℕ → List Text → List Text
push_byte c [] = (c ∷ []) ∷ []
push_byte c (l ∷ ls) = (c ∷ l) ∷ ls

unfoldable pub read_lines : Text → List Text
read_lines [] = []
read_lines (c ∷ s) = let rest = read_lines s in if c == b'\n' then [] ∷ rest else push_byte c rest

-- Whether str::trim leaves nothing; of ASCII white space.
abbrev pub is_blank : Text → Bool
is_blank s = is_empty (trim_end s)

-- What `verify` carries from line to line: the expected sequence number and previous hash.
abbrev pub Expected : Type 0
Expected = ℕ × Text

pub record AuditLog : Type 0 where
  pub disk : Option Text
  pub last_seq : ℕ
  pub last_hash : Text

abbrev pub contents : Option Text → Text
contents none = []
contents (some file) = file

-- The file with one more line.
abbrev pub append_line : Option Text → Text → Option Text
append_line disk line = some (contents disk ++ (line ++ b'\n' ∷ []))

-- How far the writes of a line come: the file cannot be opened, or an error stops them after so many
-- bytes (of the line, its newline, or none left for the flush), or they all succeed.
pub data Writes : Type 0 where
  unopened complete : Writes
  cut : ℕ → Writes

abbrev pub landed : Writes → Option Text → Text → Option Text
landed unopened disk line = disk
landed complete disk line = append_line disk line
landed (cut n) disk line = some (contents disk ++ take n (line ++ b'\n' ∷ []))

abbrev pub next_seq : AuditLog → ℕ
next_seq log = if is_empty log.last_hash then 0 else (log.last_seq + 1) % 2 ^ 64

module _ (c : AuditCrates) where
  open c use {Value, jcs, sha256, to_string, from_str}

  abbrev pub hash_input : Text → Text → Text → Text
  hash_input prev kind canonical = prev ++ b'|' ∷ (kind ++ b'|' ∷ canonical)

  unfoldable pub hash_entry : Text → Text → Value → Checked Text
  hash_entry prev kind payload = elim (jcs payload) [
    | none ↦ err json
    | some canonical ↦ ok (hex_encode (sha256 (hash_input prev kind canonical)))
  ]

  -- The checks of the loop body, after the entry has been parsed.
  unfoldable pub verify_entry : Entry Value → Expected → Checked Expected
  verify_entry e (expected_seq, expected_prev) =
      if not (e.seq == expected_seq)
      then err (chain_broken e.seq (number expected_seq) (number e.seq))
      else if not (text_eq e.prev expected_prev)
      then err (chain_broken e.seq (digest expected_prev) (digest e.prev))
      else (do
        recomputed ← hash_entry e.prev e.kind e.payload
        if not (text_eq recomputed e.hash)
            then err (chain_broken e.seq (digest recomputed) (digest e.hash))
            else ok ((expected_seq + 1) % 2 ^ 64, e.hash))

  unfoldable pub parse_line : Text → Checked (Entry Value)
  parse_line line = elim (from_str (trim_end line)) [ none ↦ err json | some e ↦ ok e ]

  unfoldable pub verify_lines : List Text → Expected → Checked Expected
  verify_lines [] x = ok x
  verify_lines (line ∷ ls) x = do e ← parse_line line; x' ← verify_entry e x; verify_lines ls x'

  -- `disk` is `none` where the file does not exist.
  unfoldable pub verify : Option Text → Checked (Unit {0})
  verify none = err io
  verify (some file) = do x ← verify_lines (read_lines file) (0, []); ok tt

  unfoldable pub replay_lines : List Text → ℕ → Text → Checked (ℕ × Text)
  replay_lines [] last_seq last_hash = ok (last_seq, last_hash)
  replay_lines (line ∷ ls) last_seq last_hash =
      let rest = replay_lines ls last_seq last_hash in
      if is_blank line then rest else (do e ← parse_line line; replay_lines ls e.seq e.hash)

  unfoldable pub replay_tail : Option Text → Checked (ℕ × Text)
  replay_tail none = ok (0, [])
  replay_tail (some file) = replay_lines (read_lines file) 0 []

  unfoldable pub open_log : Option Text → Checked AuditLog
  open_log disk = do
    (last_seq, last_hash) ← replay_tail disk
    ok (record { disk = disk; last_seq = last_seq; last_hash = last_hash })

  -- The entry that `append` makes at the time `at`.
  abbrev pub new_entry : AuditLog → ℕ → Text → Value → Text → Entry Value
  new_entry log at kind payload hash = record {
    seq = next_seq log;
    prev = log.last_hash;
    at = at;
    kind = kind;
    payload = payload;
    hash = hash;
  }

  -- The writes, and the new state of the log if they all succeed.
  abbrev pub stored : Writes → AuditLog → Entry Value → Text → Checked (Entry Value) × AuditLog
  stored complete log e line =
      (ok e, record { disk = landed complete log.disk line; last_seq = e.seq; last_hash = e.hash })
  stored unopened log e line = (err io, record log { disk = landed unopened log.disk line })
  stored (cut n) log e line = (err io, record log { disk = landed (cut n) log.disk line })

  abbrev pub rendered :
      Writes → AuditLog → Entry Value → Option Text → Checked (Entry Value) × AuditLog
  rendered w log e none = (err json, log)
  rendered w log e (some line) = stored w log e line

  abbrev pub hashed :
      Writes → ℕ → Text → Value → AuditLog → Checked Text → Checked (Entry Value) × AuditLog
  hashed w at kind payload log (err x) = (err x, log)
  hashed w at kind payload log (ok hash) =
      let e = new_entry log at kind payload hash in rendered w log e (to_string e)

  -- On an error the sequence number and the hash stay as they were.
  unfoldable pub append : Writes → ℕ → Text → Value → AuditLog → Checked (Entry Value) × AuditLog
  append w at kind payload log =
      hashed w at kind payload log (hash_entry log.last_hash kind payload)
