-- ===== src/Catalog/Listing.antt =====
-- What a listing shows.
use mathlib.Core.List.{Memᴰ}
use gift_hub.Prelude.{
  ℕ, String, ◌≡◌, refl, sym, ap, Bool, Bool-cases, inl, inr, true, false, some, List, [], ◌∷◌, ◌++◌,
  any, where_rows, eq_iff, str_eq, ◌||◌, ◌&&◌, arith,
}
use gift_hub.Prelude.Dict.{str_eq_refl}
use gift_hub.Prelude.Texts.{is_empty}
use gift_hub.Session.{ok, err, integrity_error}
use gift_hub.Catalog.{
  Product, CatalogProduct, Catalog, has_sku, unique_skus, flushed, new_row, add_row, is_shown,
  is_after, insert_product, sort_products, seed, listed, ensure_default_catalog, list_products,
  create_product,
}

Memᴰ-where :
    (t : CatalogProduct → Bool) (ps : List CatalogProduct) {p : CatalogProduct}
    → t p ≡ true
    → Memᴰ p ps
    → Memᴰ p (where_rows t ps)
Memᴰ-where t [] h m = elim m [ ]
Memᴰ-where t (q ∷ ps) {p} h (Memᴰ.head e) =
    let shown : t q ≡ true = rw (sym e) h in rw shown (Memᴰ.head e)
Memᴰ-where t (q ∷ ps) h (Memᴰ.tail m) = elim (Bool-cases (t q)) [
  | inl y ↦ rw y (Memᴰ.tail (Memᴰ-where t ps h m))
  | inr n ↦ rw n (Memᴰ-where t ps h m)
]

insert-head : (p : CatalogProduct) (qs : List CatalogProduct) → Memᴰ p (insert_product p qs)
unfolding insert_product
insert-head p [] = Memᴰ.head refl
insert-head p (q ∷ qs) = elim (Bool-cases (is_after p q)) [
  | inl y ↦ rw y (Memᴰ.tail (insert-head p qs))
  | inr n ↦ rw n (Memᴰ.head refl)
]

insert-tail :
    (p : CatalogProduct) (qs : List CatalogProduct) {r : CatalogProduct}
    → Memᴰ r qs
    → Memᴰ r (insert_product p qs)
unfolding insert_product
insert-tail p [] m = elim m [ ]
insert-tail p (q ∷ qs) m = elim (Bool-cases (is_after p q)) [
  | inl y ↦
      rw y (elim m [ Memᴰ.head e ↦ Memᴰ.head e | Memᴰ.tail k ↦ Memᴰ.tail (insert-tail p qs k) ])
  | inr n ↦ rw n (Memᴰ.tail m)
]

Memᴰ-sort : (ps : List CatalogProduct) {p : CatalogProduct} → Memᴰ p ps → Memᴰ p (sort_products ps)
unfolding sort_products
Memᴰ-sort [] m = elim m [ ]
Memᴰ-sort (q ∷ ps) {p} (Memᴰ.head e) = rw e (insert-head q (sort_products ps))
Memᴰ-sort (q ∷ ps) (Memᴰ.tail m) = insert-tail q (sort_products ps) (Memᴰ-sort ps m)

Memᴰ-last : (ps : List CatalogProduct) (p : CatalogProduct) → Memᴰ p (ps ++ p ∷ [])
Memᴰ-last [] p = Memᴰ.head refl
Memᴰ-last (q ∷ ps) p = Memᴰ.tail (Memᴰ-last ps p)

any-last :
    (t : CatalogProduct → Bool) (ps : List CatalogProduct) (p : CatalogProduct)
    → t p ≡ true
    → any t (ps ++ p ∷ []) ≡ true
any-last t [] p h = rw h refl
any-last t (q ∷ ps) p h = let rest = any-last t ps p h in ground arith

taken-not_unique :
    (ps : List CatalogProduct) (p : CatalogProduct)
    → any (has_sku p.product.sku) ps ≡ true
    → unique_skus (ps ++ p ∷ []) ≡ false
unfolding unique_skus
taken-not_unique [] p h = cc h
taken-not_unique (q ∷ ps) p h = elim (Bool-cases (has_sku p.product.sku q)) [
  | inl y ↦
      let same : has_sku q.product.sku p ≡ true =
        ground (arith, y, eq_iff q.product.sku p.product.sku, eq_iff p.product.sku q.product.sku) in
      let found = any-last (has_sku q.product.sku) ps p same in rw found refl
  | inr n ↦ let rest = taken-not_unique ps p (rw n at h) in ground (arith, rest)
]

seeded :
    (now : ℕ) (ps : List CatalogProduct) (p : CatalogProduct) (c : Catalog)
    → seed now (ps ++ p ∷ []) c ≡ (ok tt, c)
seeded now [] p c = refl
seeded now (q ∷ ps) p c = refl

shown : (t : String) → (is_empty t || str_eq t t) && true ≡ true
shown t = rw (str_eq_refl t) (ground arith)

module _ (now : ℕ) (p : Product) (c : Catalog) where
  created_row :
      (r : CatalogProduct) (c' : Catalog)
      → create_product now p c ≡ (ok r, c')
      → (r ≡ new_row now c.next_id p) × (c' ≡ add_row now p c)
  unfolding create_product flushed
  created_row r c' h = elim (Bool-cases (unique_skus (add_row now p c).rows)) [
    | inl y ↦
        let e : (ok (new_row now c.next_id p), add_row now p c) ≡ (ok r, c') = rw y at h in
        (cc e, cc e)
    | inr n ↦
        let e : (err integrity_error, record (add_row now p c) { rows = c.saved }) ≡ (ok r, c') =
          rw n at h in
        cc e
  ]

  listed-new :
      (later : ℕ)
      → (ps : List CatalogProduct) × (list_products later (some p.category) true (add_row now p c)
          ≡ (ok ps, add_row now p c))
        × Memᴰ (new_row now c.next_id p) ps
  unfolding list_products ensure_default_catalog
  listed-new later =
      let d = add_row now p c in
      let n = new_row now c.next_id p in
      (
        sort_products (where_rows (is_shown (some p.category) true) d.rows),
        ap (listed (some p.category) true) (seeded later c.rows n d),
        Memᴰ-sort _ (
            Memᴰ-where (is_shown (some p.category) true) d.rows {p = n} (shown p.category)
              (Memᴰ-last c.rows n)),
      )

  -- Directly after a product has been created without an error, a listing of the active products of
  -- its category shows it and leaves the catalogue as it is, and creating another product with its
  -- article number raises and leaves the rows as they were committed.
  pub created_listed :
      (r : CatalogProduct) (c' : Catalog) (later : ℕ) (q : Product)
      → create_product now p c ≡ (ok r, c')
      → q.sku ≡ p.sku
      → let again = create_product later q c' in
        ((ps : List CatalogProduct) × (list_products later (some p.category) true c' ≡ (ok ps, c'))
          × Memᴰ r ps)
        × (again.0 ≡ err integrity_error)
        × (again.1.rows ≡ c'.saved)
  unfolding create_product flushed
  created_listed r c' later q h same =
      let e = created_row r c' h in
      let d = add_row now p c in
      let n = new_row now c.next_id p in
      let taken =
        taken-not_unique d.rows (new_row later d.next_id q)
          (any-last (has_sku q.sku) c.rows n ((eq_iff p.sku q.sku).1 (sym same))) in
      rw (e.0) (rw (e.1) (listed-new later, rw taken refl, rw taken refl))
