-- ===== src/WriteAheadLog/Recovery.antt =====
-- What `Recover` of 23-Write-Ahead-Log/main.go returns.
use design_with_ts_go.Base.{
  ℕ, ◌+◌, ◌≡◌, refl, ap, ◌∙◌, ite, List, [], ◌∷◌, ◌++◌, arith, length, length-append, All, nat_key,
  same_key, Map, assign, delete, GoString, str, string_key, int_key,
}
use mathlib.Core.List.{append-nil}
use design_with_ts_go.WriteAheadLog.{
  WalEntry, WriteAheadLog, new, checksum_of, append, recovered, corrupt, replay, recover_from,
  recover,
}

-- The stored checksum is that of the fields.
abbrev pub IsIntact : WalEntry → Type 0
IsIntact entry = checksum_of entry.lsn entry.op entry.key entry.value ≡ entry.checksum

abbrev pub replay_all : List WalEntry → Map GoString GoString → Map GoString GoString
replay_all [] state = state
replay_all (entry ∷ entries) state = replay_all entries (replay entry state)

recover_from_intact :
    (state : Map GoString GoString) (entries rest : List WalEntry)
    → All IsIntact entries
    → recover_from state (entries ++ rest) ≡ recover_from (replay_all entries state) rest
unfolding recover_from
recover_from_intact state [] rest h = refl
recover_from_intact state (e ∷ entries) rest h =
    ground (arith, h.0, recover_from_intact (replay e state) entries rest h.1)

-- The first entry whose checksum is not that of its fields stops the recovery with an error that
-- names it, whatever follows.
pub recover_corrupt :
    (w : WriteAheadLog) (intact rest : List WalEntry) (bad : WalEntry)
    → w.entries ≡ intact ++ bad ∷ rest
    → All IsIntact intact
    → ¬ IsIntact bad
    → recover w ≡ corrupt bad.lsn
unfolding recover recover_from
recover_corrupt w intact rest bad e h broken =
    rw e (recover_from_intact [] intact (bad ∷ rest) h ∙ ground arith)

-- The operations that a client logs.
pub record Write : Type 0 where
  pub op : GoString
  pub key : GoString
  pub value : GoString

abbrev pub append_all : List Write → WriteAheadLog → WriteAheadLog
append_all [] w = w
append_all (x ∷ writes) w = append_all writes (append w x.op x.key x.value).0

-- What a client expects of its operations: a "put" stores, anything else deletes.
abbrev pub apply_all : List Write → Map GoString GoString → Map GoString GoString
apply_all [] state = state
apply_all (x ∷ writes) state =
    apply_all writes
      (ite (same_key x.op (str "put")) (assign x.key x.value state) (delete x.key state))

-- The log as it is after appends: entries intact, numbered from 1 on.
abbrev pub Numbered : ℕ → List WalEntry → Type 0
Numbered n [] = Unit
Numbered n (e ∷ entries) = (e.lsn ≡ n) × Numbered (n + 1) entries

Numbered-snoc :
    (n : ℕ) (entries : List WalEntry) (e : WalEntry)
    → Numbered n entries
    → e.lsn ≡ n + length entries
    → Numbered n (entries ++ e ∷ [])
Numbered-snoc n [] e h last = (omega arith, tt)
Numbered-snoc n (x ∷ entries) e h last = (h.0, Numbered-snoc (n + 1) entries e h.1 (omega arith))

All-snoc :
    (entries : List WalEntry) (e : WalEntry)
    → All IsIntact entries
    → IsIntact e
    → All IsIntact (entries ++ e ∷ [])
All-snoc [] e h last = (last, tt)
All-snoc (x ∷ entries) e h last = (h.0, All-snoc entries e h.1 last)

-- Every entry is intact, and they are numbered from 1 on.
abbrev pub IsWritten : WriteAheadLog → Type 0
IsWritten w = All IsIntact w.entries × Numbered 1 w.entries × (w.next_lsn ≡ 1 + length w.entries)

append-IsWritten :
    (w : WriteAheadLog) (x : Write) → IsWritten w → IsWritten (append w x.op x.key x.value).0
unfolding append
append-IsWritten w x (intact, numbered, next) = (
  All-snoc w.entries (append w x.op x.key x.value).1 intact refl,
  Numbered-snoc 1 w.entries (append w x.op x.key x.value).1 numbered next,
  omega (arith, next, length-append w.entries ((append w x.op x.key x.value).1 ∷ [])),
)

replay_all-append :
    (entries : List WalEntry) (e : WalEntry) (state : Map GoString GoString)
    → replay_all (entries ++ e ∷ []) state ≡ replay e (replay_all entries state)
replay_all-append [] e state = refl
replay_all-append (x ∷ entries) e state = replay_all-append entries e (replay x state)

append_all_lem :
    (writes : List Write) (w : WriteAheadLog)
    → IsWritten w
    → IsWritten (append_all writes w)
      × (recover (append_all writes w) ≡ recovered (apply_all writes (replay_all w.entries [])))
unfolding recover recover_from append replay
append_all_lem [] w h = (h, rw append-nil at (recover_from_intact [] w.entries [] h.0))
append_all_lem (x ∷ writes) w h =
    let (written, e) =
      append_all_lem writes (append w x.op x.key x.value).0 (append-IsWritten w x h) in
    (
      written,
      e
          ∙ ap (λ state. recovered (apply_all writes state))
              (replay_all-append w.entries (append w x.op x.key x.value).1 []),
    )

-- Recovering a log that was only appended to never fails: it returns the state that the
-- operations lead to, one after the other; the entries are intact and numbered 1, 2, 3, …
pub recover-append_all :
    (writes : List Write)
    → (recover (append_all writes new) ≡ recovered (apply_all writes []))
      × IsWritten (append_all writes new)
unfolding new
recover-append_all writes =
    let (written, e) = append_all_lem writes new (tt, tt, omega arith) in (e, written)
