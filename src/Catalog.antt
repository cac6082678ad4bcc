-- ===== src/Catalog.antt =====
-- The catalogue: app/services/catalog/service.py over `CatalogProduct` of app/models/catalog.py.
-- Titles, descriptions, badges, metadata and log lines are left out. The rows and what is committed
-- of them are the state; a failed flush rolls back. Rows with equal keys keep their order.
pub mod Listing
use Prim.Native.Nat.{Ordering}
use Prim.Native.String.{compare}
use gift_hub.Prelude.{
  ℕ, suc, ◌+◌, ◌==◌, String, Bool, true, false, not, ◌&&◌, ◌||◌, Option, none, some, is_some, List,
  [], ◌∷◌, ◌++◌, str_eq, any, find, where_rows, update_rows, if◌then◌else◌,
}
use gift_hub.Prelude.Int.{ℤ, pos, ltb_ℤ}
use gift_hub.Prelude.Texts.{is_empty}
use gift_hub.Session.{Result, ok, err, integrity_error}

-- The columns a caller gives; the price in tiyin.
pub record Product : Type 0 where
  pub category : String
  pub sku : String
  pub quantity : ℤ
  pub duration_months : Option ℤ
  pub base_price_uzs : ℤ
  pub display_order : ℤ

pub record CatalogProduct : Type 0 where
  pub id : ℕ
  pub product : Product
  pub is_active : Bool
  pub created_at : ℕ
  pub updated_at : ℕ

-- The rows, the number that the next row gets, and the rows as committed.
pub record Catalog : Type 0 where
  pub rows : List CatalogProduct
  pub next_id : ℕ
  pub saved : List CatalogProduct

abbrev pub has_sku : String → CatalogProduct → Bool
has_sku s p = str_eq p.product.sku s

abbrev pub has_product_id : ℕ → CatalogProduct → Bool
has_product_id i p = p.id == i

-- The constraint of the column `sku`.
unfoldable pub unique_skus : List CatalogProduct → Bool
unique_skus [] = true
unique_skus (p ∷ ps) = not (any (has_sku p.product.sku) ps) && unique_skus ps

-- `session.flush()`, with the value to return.
unfoldable pub flushed : {A : Type 0} → A → Catalog → Result A × Catalog
flushed a c =
    if unique_skus c.rows then (ok a, c) else (err integrity_error, record c { rows = c.saved })

abbrev pub new_row : ℕ → ℕ → Product → CatalogProduct
new_row now i p = record {
  id = i;
  product = p;
  is_active = true;
  created_at = now;
  updated_at = now;
}

abbrev pub add_row : ℕ → Product → Catalog → Catalog
add_row now p c = record c {
  rows = c.rows ++ new_row now c.next_id p ∷ [];
  next_id = suc c.next_id;
}

abbrev add_all : ℕ → List Product → Catalog → Catalog
add_all now [] c = c
add_all now (p ∷ ps) c = add_all now ps (add_row now p c)

abbrev stars : String → ℕ → ℕ → ℕ → Product
stars sku quantity price order = record {
  category = "stars";
  sku = sku;
  quantity = pos quantity;
  duration_months = none;
  base_price_uzs = pos price;
  display_order = pos order;
}

abbrev premium : String → ℕ → ℕ → ℕ → Product
premium sku months price order = record {
  category = "premium";
  sku = sku;
  quantity = pos 1;
  duration_months = some (pos months);
  base_price_uzs = pos price;
  display_order = pos order;
}

abbrev gift : String → ℕ → ℕ → ℕ → Product
gift sku quantity price order = record (stars sku quantity price order) { category = "gift" }

-- DEFAULT_PRODUCTS
unfoldable pub default_products : List Product
default_products =
    stars "stars_50" 50 1100000 1
    ∷ stars "stars_100" 100 2150000 2
    ∷ stars "stars_250" 250 5300000 3
    ∷ stars "stars_500" 500 10500000 4
    ∷ stars "stars_1000" 1000 20900000 5
    ∷ premium "premium_3m" 3 14500000 1
    ∷ premium "premium_6m" 6 19500000 2
    ∷ premium "premium_12m" 12 32000000 3
    ∷ gift "gift_teddy" 15 3500000 1
    ∷ gift "gift_heart" 25 5500000 2
    ∷ gift "gift_cake" 50 11000000 3
    ∷ []

abbrev pub seed : ℕ → List CatalogProduct → Catalog → Result (Unit {0}) × Catalog
seed now [] c = flushed tt (add_all now default_products c)
seed now (p ∷ ps) c = (ok tt, c)

unfoldable pub ensure_default_catalog : ℕ → Catalog → Result (Unit {0}) × Catalog
ensure_default_catalog now c = seed now c.rows c

abbrev comes_after : Ordering → Bool → Bool
comes_after Ordering.gt later = true
comes_after Ordering.eq later = later
comes_after Ordering.lt later = false

-- `order_by(category.asc(), display_order.asc())`
unfoldable pub is_after : CatalogProduct → CatalogProduct → Bool
is_after p q =
    comes_after (compare p.product.category q.product.category)
      (ltb_ℤ q.product.display_order p.product.display_order)

unfoldable pub insert_product : CatalogProduct → List CatalogProduct → List CatalogProduct
insert_product p [] = p ∷ []
insert_product p (q ∷ qs) =
    let rest = insert_product p qs in if is_after p q then q ∷ rest else p ∷ q ∷ qs

unfoldable pub sort_products : List CatalogProduct → List CatalogProduct
sort_products [] = []
sort_products (p ∷ ps) = insert_product p (sort_products ps)

abbrev in_category : Option String → CatalogProduct → Bool
in_category none p = true
in_category (some c) p = is_empty c || str_eq p.product.category c

abbrev pub is_shown : Option String → Bool → CatalogProduct → Bool
is_shown category active_only p = in_category category p && (not active_only || p.is_active)

abbrev pub listed :
    Option String → Bool → Result (Unit {0}) × Catalog → Result (List CatalogProduct) × Catalog
listed category active_only (ok u, c) =
    (ok (sort_products (where_rows (is_shown category active_only) c.rows)), c)
listed category active_only (err e, c) = (err e, c)

unfoldable pub list_products :
    ℕ → Option String → Bool → Catalog → Result (List CatalogProduct) × Catalog
list_products now category active_only c =
    listed category active_only (ensure_default_catalog now c)

unfoldable pub get_by_sku : String → Catalog → Option CatalogProduct
get_by_sku sku c = find (has_sku sku) c.rows

unfoldable pub create_product : ℕ → Product → Catalog → Result CatalogProduct × Catalog
create_product now p c = flushed (new_row now c.next_id p) (add_row now p c)

-- The keywords of `update_product`; one that is missing or None keeps the column.
pub record Changes : Type 0 where
  pub category : Option String
  pub sku : Option String
  pub quantity : Option ℤ
  pub duration_months : Option ℤ
  pub base_price_uzs : Option ℤ
  pub display_order : Option ℤ
  pub is_active : Option Bool

abbrev or_kept {ℓ} : {A : Type ℓ} → A → Option A → A
or_kept a none = a
or_kept a (some b) = b

abbrev months_or : Option ℤ → Option ℤ → Option ℤ
months_or old none = old
months_or old (some n) = some n

abbrev changed : ℕ → Changes → CatalogProduct → CatalogProduct
changed now k p = record p {
  product = record {
    category = or_kept p.product.category k.category;
    sku = or_kept p.product.sku k.sku;
    quantity = or_kept p.product.quantity k.quantity;
    duration_months = months_or p.product.duration_months k.duration_months;
    base_price_uzs = or_kept p.product.base_price_uzs k.base_price_uzs;
    display_order = or_kept p.product.display_order k.display_order;
  };
  is_active = or_kept p.is_active k.is_active;
  updated_at = now;
}

abbrev update_found :
    ℕ → Changes → Catalog → Option CatalogProduct → Result (Option CatalogProduct) × Catalog
update_found now k c none = (ok none, c)
update_found now k c (some p) =
    flushed (some (changed now k p))
      (record c { rows = update_rows (has_product_id p.id) (changed now k) c.rows })

unfoldable pub update_product : ℕ → ℕ → Changes → Catalog → Result (Option CatalogProduct) × Catalog
update_product now i k c = update_found now k c (find (has_product_id i) c.rows)

unfoldable pub delete_product : ℕ → Catalog → Result Bool × Catalog
delete_product i c =
    if is_some (find (has_product_id i) c.rows)
    then flushed true (record c { rows = where_rows (λ p. not (has_product_id i p)) c.rows })
    else (ok false, c)
