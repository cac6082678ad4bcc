-- ===== src/FeatureFlags/Seen.antt =====
-- Reading a flag after it has been set, and the seeding of the flags.
use gift_hub.Prelude.{
  ℕ, ◌+◌, ◌<◌, String, ◌≡◌, refl, ◌∙◌, Bool, true, Option, none, some, List, [], ◌∷◌, ◌++◌, arith,
  ltb, find, any, All, update_rows, Bool-cases, inl, inr,
}
use gift_hub.Prelude.Dict.{Dict, lookup, insert, lookup-insert, str_eq_refl}
use gift_hub.Models.Shop.{FeatureFlag}
use gift_hub.Session.{Session, ok}
use gift_hub.FeatureFlags.{
  cache_ttl, has_name, load_flags, refresh_cache, is_stale, is_enabled, set_flag, write_flag,
  new_flag,
}

-- The rows of a name all hold the value `b`.
abbrev Says : String → Bool → FeatureFlag → Type 0
Says n b f = has_name n f ≡ true → f.is_enabled ≡ b

load_flags-known :
    (n : String) (b : Bool) (fs : List FeatureFlag) (d : Dict Bool)
    → All (Says n b) fs
    → lookup n d ≡ some b
    → lookup n (load_flags fs d) ≡ some b
unfolding load_flags
load_flags-known n b [] d h k = k
load_flags-known n b (f ∷ fs) d h k =
    load_flags-known n b fs (insert f.name f.is_enabled d) h.1 (elim (Bool-cases (has_name n f)) [
      | inl y ↦ let e = h.0 y in ground (arith, lookup-insert f.name n f.is_enabled d)
      | inr m ↦ ground (arith, lookup-insert f.name n f.is_enabled d)
    ])

load_flags-present :
    (n : String) (b : Bool) (fs : List FeatureFlag) (d : Dict Bool)
    → All (Says n b) fs
    → any (has_name n) fs ≡ true
    → lookup n (load_flags fs d) ≡ some b
unfolding load_flags
load_flags-present n b [] d h k = cc k
load_flags-present n b (f ∷ fs) d h k = elim (Bool-cases (has_name n f)) [
  | inl y ↦
      let e = h.0 y in
      load_flags-known n b fs (insert f.name f.is_enabled d) h.1
        (ground (arith, lookup-insert f.name n f.is_enabled d))
  | inr m ↦ load_flags-present n b fs (insert f.name f.is_enabled d) h.1 (rw m at k)
]

added-Says :
    (now : ℕ) (n : String) (b : Bool) (rows : List FeatureFlag)
    → find (has_name n) rows ≡ none
    → All (Says n b) (rows ++ new_flag now n b ∷ [])
      × (any (has_name n) (rows ++ new_flag now n b ∷ []) ≡ true)
added-Says now n b [] k = ((λ _. refl, tt), rw (str_eq_refl n))
added-Says now n b (f ∷ rows) k = elim (Bool-cases (has_name n f)) [
  | inl y ↦ let k' : some f ≡ none = rw y at k in cc k'
  | inr m ↦
      let rest = added-Says now n b rows (rw m at k) in ((λ y. cc (y, m), rest.0), rw m rest.1)
]

changed-Says :
    (now : ℕ) (n : String) (b : Bool) (rows : List FeatureFlag)
    → (g : FeatureFlag → FeatureFlag) → ((x : FeatureFlag) → (g x).name ≡ x.name)
    → ((x : FeatureFlag) → (g x).is_enabled ≡ b)
    → All (Says n b) (update_rows (has_name n) g rows)
      × (any (has_name n) (update_rows (has_name n) g rows) ≡ any (has_name n) rows)
changed-Says now n b [] g same says = (tt, refl)
changed-Says now n b (f ∷ rows) g same says =
    let rest = changed-Says now n b rows g same says in
    elim (Bool-cases (has_name n f)) [
      | inl y ↦ rw (y, same f, y) (((λ _. says f), rest.0), refl)
      | inr m ↦ rw (m, m) (((λ y. cc (y, m)), rest.0), rest.1)
    ]

find-any :
    (n : String) (rows : List FeatureFlag) {f : FeatureFlag}
    → find (has_name n) rows ≡ some f
    → any (has_name n) rows ≡ true
find-any n [] k = cc k
find-any n (g ∷ rows) k = elim (Bool-cases (has_name n g)) [
  | inl y ↦ rw y
  | inr m ↦ rw m (find-any n rows (rw m at k))
]

write_flag-Says :
    (now : ℕ) (n : String) (b : Bool) (o : Option FeatureFlag) (rows : List FeatureFlag)
    → find (has_name n) rows ≡ o
    → All (Says n b) (write_flag now n b o rows)
      × (any (has_name n) (write_flag now n b o rows) ≡ true)
write_flag-Says now n b none rows k = added-Says now n b rows k
write_flag-Says now n b (some f) rows k =
    let r =
      changed-Says now n b rows (λ g. record g { is_enabled = b; updated_at = now }) (λ _. refl)
        (λ _. refl) in
    (r.0, r.1 ∙ find-any n rows k)

-- After a flag has been set, the next reading of it returns the value that was set, whatever the
-- process had cached, provided the process's clock has passed the cache's time to live.
pub set_seen :
    (now clock : ℕ) (n : String) (b d : Bool) (s : Session)
    → cache_ttl < clock
    → (is_enabled clock n d (set_flag now n b s).1).0 ≡ ok b
unfolding set_flag is_enabled is_stale refresh_cache
set_seen now clock n b d s h =
    let rows = s.db.feature_flags in
    let w = write_flag-Says now n b (find (has_name n) rows) rows refl in
    let old : ltb (0 + cache_ttl) clock ≡ true = ground arith in
    rw (old, load_flags-present n b (write_flag now n b (find (has_name n) rows) rows) [] w.0 w.1)
