-- ===== src/Examples/Offers.antt =====
-- The theorem on the catalogue at a concrete input.
use mathlib.Core.List.{Memᴰ}
use gift_hub.Prelude.{◌≡◌, refl, true, none, some, List, [], ◌∷◌}
use gift_hub.Prelude.Int.{pos}
use gift_hub.Session.{ok, err, integrity_error}
use gift_hub.Catalog.{
  Product, CatalogProduct, Catalog, new_row, add_row, flushed, unique_skus, list_products,
  create_product,
}
use gift_hub.Catalog.Listing.{created_listed}

abbrev offer : Product
offer = record {
  category = "gift";
  sku = "gift_ring";
  quantity = pos 1;
  duration_months = none;
  base_price_uzs = pos 4000000;
  display_order = pos 4;
}

abbrev other_offer : Product
other_offer = record offer { category = "stars" }

abbrev catalog : Catalog
catalog = record {
  rows = new_row 10 1 (record offer { sku = "gift_cake" }) ∷ [];
  next_id = 2;
  saved = [];
}

abbrev after : Catalog
after = add_row 20 offer catalog

creates : create_product 20 offer catalog ≡ (ok (new_row 20 2 offer), after)
unfolding create_product flushed unique_skus
creates = refl

created_listed_example :
    let again = create_product 30 other_offer after in
    ((ps : List CatalogProduct) × (list_products 30 (some "gift") true after ≡ (ok ps, after))
      × Memᴰ (new_row 20 2 offer) ps)
    × (again.0 ≡ err integrity_error)
    × (again.1.rows ≡ [])
created_listed_example =
    created_listed 20 offer catalog (new_row 20 2 offer) after 30 other_offer creates refl
