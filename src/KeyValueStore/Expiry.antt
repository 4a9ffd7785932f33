-- ===== src/KeyValueStore/Expiry.antt =====
-- What `Put`, `Get` and `Delete` of 26-Key-Value-Store/main.go promise of each other.
use design_with_ts_go.Base.{
  ◌+◌, ◌≡◌, refl, ite, ◌&&◌, Option, none, some, arith, if◌then◌else◌, is_some, nat_key, same_key,
  lookup, lookup-assign, lookup-delete, GoString, string_key, ◌+ℤ◌, ℤ, pos, ◌≤ℤ◌, ltb_ℤ, int_key,
}
use design_with_ts_go.KeyValueStore.{KvEntry, KeyValueStore, put, is_expired, get, delete_key}

-- What a reader sees of a key at an instant.
abbrev pub view : Option KvEntry → ℤ → Option GoString
view none now = none
view (some entry) now = if is_expired entry now then none else some entry.value

abbrev pub peek : KeyValueStore → GoString → ℤ → Option GoString
peek s key now = view (lookup key s.entries) now

pub get_returns :
    (s : KeyValueStore) (key : GoString) (now : ℤ) → (get s key now).1 ≡ peek s key now
unfolding get
get_returns s key now = ground arith

-- After `Put` a key reads as the value, until its positive time to live has passed, and for ever
-- without one; every other key reads as before.
pub get-put_ttl :
    (s : KeyValueStore) (key value other : GoString) (ttl now later : ℤ)
    → (get (put s key value ttl now).0 other later).1
      ≡ ite
          (same_key key other)
          (if ltb_ℤ (pos 0) ttl && ltb_ℤ (now +ℤ ttl) later then none else some value)
          ((get s other later).1)
unfolding get put
get-put_ttl s key value other ttl now later =
    let entry : KvEntry = record {
      value = value;
      expires_at = if ltb_ℤ (pos 0) ttl then some (now +ℤ ttl) else none;
      version = s.version + 1;
    } in
    ground (arith, lookup-assign other key entry s.entries)

-- Expiry is lazy and final: a `Get` evicts at most the key that it finds expired, so it changes
-- nothing that a `Get` of any key can return at that instant or later; the version counter stays.
pub get-get :
    (s : KeyValueStore) (key other : GoString) (now later : ℤ)
    → now ≤ℤ later
    → ((get (get s key now).0 other later).1 ≡ (get s other later).1)
      × ((get s key now).0.version ≡ s.version)
unfolding get
get-get s key other now later h = (ground (arith, lookup-delete other key s.entries), ground arith)

-- `Delete` reports whether the key was stored, expired or not, and removes exactly that key.
pub get-delete_key :
    (s : KeyValueStore) (key other : GoString) (now : ℤ)
    → ((get (delete_key s key).0 other now).1 ≡ ite (same_key key other) none ((get s other now).1))
      × ((delete_key s key).1 ≡ is_some (lookup key s.entries))
unfolding get delete_key
get-delete_key s key other now = (ground (arith, lookup-delete other key s.entries), refl)
