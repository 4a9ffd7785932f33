-- ===== src/TimeSeries/Keys.antt =====
-- 25-Time-Series-Store/main.go: different series have different keys, where the names and the tags
-- are free of the separators.
use mathlib.Core.Path.{subst}
use design_with_ts_go.Base.{
  ℕ, ◌≡◌, refl, sym, ap, ◌≢◌, ◌↔◌, List, [], ◌∷◌, ◌++◌, arith, All, get_or, nat_key, Map, lookup,
  GoString, string_key, keys, sort, leb_string, int_key, sort, leb_string, keys, get_or, lookup,
}
use design_with_ts_go.TimeSeries.{tag_parts, join, series_key}

-- The byte does not occur.
abbrev pub Lacks : ℕ → GoString → Type 0
Lacks byte s = All (λ c. c ≢ byte) s

-- Two texts that are equal are equal up to their first separators, and after them.
cut :
    (byte : ℕ) (s t u v : GoString)
    → Lacks byte s
    → Lacks byte t
    → s ++ byte ∷ u ≡ t ++ byte ∷ v
    → (s ≡ t) × (u ≡ v)
cut byte [] [] u v h k e = (refl, cc)
cut byte [] (c ∷ t) u v h k e = ground (arith, k.0)
cut byte (b ∷ s) [] u v h k e = ground (arith, h.0)
cut byte (b ∷ s) (c ∷ t) u v h k e =
    let (same, rest) = cut byte s t u v h.1 k.1 cc in (ground (arith, same), rest)

Lacks-append : (byte : ℕ) (s t : GoString) → Lacks byte s → Lacks byte t → Lacks byte (s ++ t)
Lacks-append byte [] t h k = k
Lacks-append byte (b ∷ s) t h k = (h.0, Lacks-append byte s t h.1 k)

no_separator : (byte : ℕ) (s u : GoString) → Lacks byte (s ++ byte ∷ u) → ⊥
no_separator byte [] u h = h.0 refl
no_separator byte (b ∷ s) u h = no_separator byte s u h.1

not_empty : (byte : ℕ) (s u : GoString) → s ++ byte ∷ u ≡ [] → ⊥
not_empty byte [] u e = cc
not_empty byte (b ∷ s) u e = cc

-- A part of a key: not empty, and without the separator of parts.
abbrev IsPart : GoString → Type 0
IsPart part = Lacks b',' part × (part ≢ [])

join-injective :
    (ps qs : List GoString) → All IsPart ps → All IsPart qs → join ps ≡ join qs → ps ≡ qs
unfolding join
join-injective [] [] h k e = refl
join-injective [] (q ∷ []) h k e = absurd (k.0.1 (sym e))
join-injective [] (q ∷ r ∷ qs) h k e = absurd (not_empty b',' q (join (r ∷ qs)) (sym e))
join-injective (p ∷ []) [] h k e = absurd (h.0.1 e)
join-injective (p ∷ o ∷ ps) [] h k e = absurd (not_empty b',' p (join (o ∷ ps)) e)
join-injective (p ∷ []) (q ∷ []) h k e = ap (λ x. x ∷ []) e
join-injective (p ∷ []) (q ∷ r ∷ qs) h k e =
    absurd (no_separator b',' q (join (r ∷ qs)) (subst (Lacks b',') e h.0.0))
join-injective (p ∷ o ∷ ps) (q ∷ []) h k e =
    absurd (no_separator b',' p (join (o ∷ ps)) (subst (Lacks b',') (sym e) k.0.0))
join-injective (p ∷ o ∷ ps) (q ∷ r ∷ qs) h k e =
    let (same, rest) = cut b',' p q (join (o ∷ ps)) (join (r ∷ qs)) h.0.0 k.0.0 e in
    let later = join-injective (o ∷ ps) (r ∷ qs) h.1 k.1 rest in cc

-- Tags with their values, by the keys listed.
abbrev pub listed : Map GoString GoString → List GoString → List (GoString × GoString)
listed tags [] = []
listed tags (key ∷ ks) = (key, get_or (lookup key tags) []) ∷ listed tags ks

-- The tags of a point, in ascending order of their keys.
abbrev pub sorted_tags : Map GoString GoString → List (GoString × GoString)
sorted_tags tags = listed tags (sort leb_string (keys tags))

abbrev parts : List (GoString × GoString) → List GoString
parts [] = []
parts ((key, value) ∷ tags) = (key ++ b'=' ∷ value) ∷ parts tags

tag_parts-listed :
    (tags : Map GoString GoString) (ks : List GoString) → tag_parts tags ks ≡ parts (listed tags ks)
unfolding tag_parts
tag_parts-listed tags [] = refl
tag_parts-listed tags (key ∷ ks) =
    ap (λ later. (key ++ b'=' ∷ get_or (lookup key tags) []) ∷ later) (tag_parts-listed tags ks)

-- A tag without the separators.
abbrev pub IsPlainTag : GoString × GoString → Type 0
IsPlainTag (key, value) = Lacks b'=' key × Lacks b',' key × Lacks b',' value

-- A series whose name and tags are without the separators.
abbrev pub IsPlain : GoString → Map GoString GoString → Type 0
IsPlain metric tags = Lacks b'|' metric × All IsPlainTag (sorted_tags tags)

parts-IsPart : (tags : List (GoString × GoString)) → All IsPlainTag tags → All IsPart (parts tags)
parts-IsPart [] h = tt
parts-IsPart ((key, value) ∷ tags) h = (
  (Lacks-append b',' key (b'=' ∷ value) h.0.1 (ground arith, h.0.2), not_empty b'=' key value),
  parts-IsPart tags h.1,
)

parts-injective :
    (ts us : List (GoString × GoString))
    → All IsPlainTag ts
    → All IsPlainTag us
    → parts ts ≡ parts us
    → ts ≡ us
parts-injective [] [] h k e = refl
parts-injective [] (u ∷ us) h k e = cc
parts-injective (t ∷ ts) [] h k e = cc
parts-injective ((key, value) ∷ ts) ((key', value') ∷ us) h k e =
    let (same, same') = cut b'=' key key' value value' h.0.0 k.0.0 cc in
    let later = parts-injective ts us h.1 k.1 cc in cc

-- Two series have one key exactly when they have one name and the same tags.
pub series_key_iff :
    (metric metric' : GoString) (tags tags' : Map GoString GoString)
    → IsPlain metric tags
    → IsPlain metric' tags'
    → (series_key metric tags ≡ series_key metric' tags')
      ↔ ((metric ≡ metric') × (sorted_tags tags ≡ sorted_tags tags'))
unfolding series_key
series_key_iff metric metric' tags tags' h k =
    rw
      (
        tag_parts-listed tags (sort leb_string (keys tags)),
        tag_parts-listed tags' (sort leb_string (keys tags')),
      )
      (
        λ e.
            let (same, joined) =
              cut b'|' metric metric' (join (parts (sorted_tags tags)))
                (join (parts (sorted_tags tags'))) h.0 k.0 e in
            (
              same,
              parts-injective (sorted_tags tags) (sorted_tags tags') h.1 k.1 (
                  join-injective (parts (sorted_tags tags)) (parts (sorted_tags tags'))
                    (parts-IsPart (sorted_tags tags) h.1) (parts-IsPart (sorted_tags tags') k.1)
                    joined),
            ),
        λ e. rw (e.0, e.1) refl,
      )
