-- ===== src/Snowflake/Order.antt =====
-- 12-ID-Generator/main.go: the order of the identifiers.
use design_with_ts_go.Base.{
  ℕ, ◌+◌, ◌%◌, ◌^◌, ◌≤◌, ◌<◌, ◌≡◌, sym, ap, ◌∙◌, ◌≢◌, ite, false, List, [], ◌∷◌, arith, ltb, ltb→lt,
  ◌==◌, if◌then◌else◌, All, nat_key, string_key, ite-elim, if-elim, ℤ, pos, pos_part, ltb_ℤ,
  ℤ-discrete, int_key,
}
use design_with_ts_go.Snowflake.{
  SnowflakeGenerator, timestamp_at, finish, Outcome, gives, waits, exits, next_sequence, next_id,
  wait_next,
}
use design_with_ts_go.Snowflake.Fields.{code, packed, sequence_mod}

-- The reading is at or after the epoch, and before the timestamps overflow their 42 bits.
abbrev pub InWindow : ℤ → ℤ → Type 0
InWindow epoch now = (n : ℕ) × (timestamp_at epoch now ≡ pos n) × (n < 2 ^ 42)

pub record IsReady (machine : ℕ) (epoch : ℤ) (g : SnowflakeGenerator) : Type 0 where
  pub own_machine : g.machine_id ≡ machine
  pub small : machine ≤ 1023
  pub own_epoch : g.epoch_ms ≡ epoch
  pub sequence : g.sequence ≤ 4095

ltb_pos : (a b : ℤ) (l n : ℕ) → a ≡ pos l → b ≡ pos n → ltb_ℤ a b ≡ ltb l n
ltb_pos a b l n e f = rw (e, f) (ground arith)

pos_inj : (l n : ℕ) → pos l ≡ pos n → l ≡ n
pos_inj l n e = ap pos_part e

module _ (machine : ℕ) (epoch : ℤ) where
  same_time :
      (s next l n : ℕ)
      → s ≤ 4095
      → next ≡ (s + 1) % 4096
      → (next == 0) ≡ false
      → l ≡ n
      → code l machine s < code n machine next
  same_time s next l n small e left same =
      let positive : next ≢ 0 = ground arith in omega (arith, positive)

  later_time :
      (l n s : ℕ) → s ≤ 4095 → ltb n l ≡ false → l ≢ n → code l machine s < code n machine 0
  later_time l n s small order differ = let after : l ≤ n = ground arith in omega (arith, differ)

  -- What a call gives: an identifier above the one that was given before.
  pub record Step (g : SnowflakeGenerator) (id : ℕ) (after : SnowflakeGenerator) (rest : List ℤ)
      : Type 0 where
    pub ready : IsReady machine epoch after
    pub readings : All (InWindow epoch) rest
    pub time : ℕ
    pub fits : time < 2 ^ 42
    pub last : after.last_timestamp ≡ pos time
    pub fields : id ≡ code time machine after.sequence
    pub above : (l : ℕ) → g.last_timestamp ≡ pos l → code l machine g.sequence < id

  abbrev pub Advances : SnowflakeGenerator → Outcome → Type 0
  Advances g (gives id after rest) = Step g id after rest
  Advances g waits = Unit
  Advances g exits = Unit

  finish-Advances :
      (g : SnowflakeGenerator) (timestamp : ℤ) (sequence n : ℕ) (rest : List ℤ)
      → IsReady machine epoch g
      → All (InWindow epoch) rest
      → timestamp ≡ pos n
      → n < 2 ^ 42
      → sequence ≤ 4095
      → ((l : ℕ) → g.last_timestamp ≡ pos l → code l machine g.sequence < code n machine sequence)
      → Advances g (finish g timestamp sequence rest)
  unfolding finish
  finish-Advances g timestamp sequence n rest ready readings t fits s above =
      let fields = packed n machine sequence fits ready.small s in
      record {
        ready = record {
          own_machine = ready.own_machine;
          small = ready.small;
          own_epoch = ready.own_epoch;
          sequence = s;
        };
        readings = readings;
        time = n;
        fits = fits;
        last = t;
        fields = rw (t, ready.own_machine) fields;
        above = λ l e. rw (t, ready.own_machine, fields) (above l e);
      }

  wait_next-Advances :
      (g : SnowflakeGenerator) (readings : List ℤ)
      → IsReady machine epoch g
      → All (InWindow epoch) readings
      → Advances g (wait_next g readings)
  unfolding wait_next
  wait_next-Advances g [] ready window = tt
  wait_next-Advances g (now ∷ rest) ready ((n, at, fits), window) =
      let t : timestamp_at g.epoch_ms now ≡ pos n = rw ready.own_epoch at in
      if-elim (Advances g) (ltb_ℤ g.last_timestamp (timestamp_at g.epoch_ms now))
        (finish g (timestamp_at g.epoch_ms now) 0 rest) (wait_next g rest)
        (λ later.
          finish-Advances g (timestamp_at g.epoch_ms now) 0 n rest ready window t fits (omega arith)
            (λ l e. omega (
              arith,
              ready.sequence,
              ltb→lt l n
                  (sym (ltb_pos g.last_timestamp (timestamp_at g.epoch_ms now) l n e t) ∙ later),
            )))
        (λ _. wait_next-Advances g rest ready window)

  pub next_id-Advances :
      (g : SnowflakeGenerator) (readings : List ℤ)
      → IsReady machine epoch g
      → All (InWindow epoch) readings
      → Advances g (next_id g readings)
  unfolding next_id
  next_id-Advances g [] ready window = tt
  next_id-Advances g (now ∷ rest) ready ((n, at, fits), window) =
      let timestamp = timestamp_at g.epoch_ms now in
      let t : timestamp_at g.epoch_ms now ≡ pos n = rw ready.own_epoch at in
      let sequence = next_sequence g in
      let masked = sequence_mod g.sequence ready.sequence in
      if-elim (Advances g) (ltb_ℤ timestamp g.last_timestamp) exits
        (ite (ℤ-discrete timestamp g.last_timestamp)
          (if sequence == 0 then wait_next g rest else finish g timestamp sequence rest)
          (finish g timestamp 0 rest))
        (λ _. tt)
        (λ not_before.
          ite-elim (Advances g) (ℤ-discrete timestamp g.last_timestamp)
            (if sequence == 0 then wait_next g rest else finish g timestamp sequence rest)
            (finish g timestamp 0 rest)
            (λ same.
              if-elim (Advances g) (sequence == 0) (wait_next g rest)
                (finish g timestamp sequence rest) (λ _. wait_next-Advances g rest ready window)
                (λ some_left.
                  finish-Advances g timestamp sequence n rest ready window t fits
                    (omega (arith, masked))
                    (λ l e.
                      same_time g.sequence sequence l n ready.sequence masked some_left
                        (pos_inj l n (sym e ∙ sym same ∙ t)))))
            (λ differs.
              finish-Advances g timestamp 0 n rest ready window t fits (omega arith) (λ l e.
                later_time l n g.sequence ready.sequence
                  (sym (ltb_pos timestamp g.last_timestamp n l t e) ∙ not_before)
                  (λ q. differs (t ∙ ap pos (sym q) ∙ sym e)))))
