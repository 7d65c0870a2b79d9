-- ===== src/Session/Catalog/Schemas.antt =====
-- The schemas that the gateway lists.
use exa_postgres_interface.Base.{
  true, false, List, [], ◌∷◌, ◌++◌, Option, none, some, ◌≡◌, refl, arith,
}
use exa_postgres_interface.Base.Sort.{IsSorted, sort-IsSorted}
use exa_postgres_interface.Base.Text.{Text, codes, text_eq}
use exa_postgres_interface.Cursor.{TextRow}
use exa_postgres_interface.Session.Catalog.{leb_text, leb_cell, eq_cell, leb_row, all_schemas}

leb_text-total : (s t : Text) → leb_text s t ≡ false → leb_text t s ≡ true
leb_text-total [] t h = absurd (ground (arith, h))
leb_text-total (c ∷ s) [] h = refl
leb_text-total (c ∷ s) (d ∷ t) h = ground (arith, h, leb_text-total s t)

text_eq_sym : (s t : Text) → text_eq s t ≡ text_eq t s
text_eq_sym [] [] = refl
text_eq_sym [] (d ∷ t) = refl
text_eq_sym (c ∷ s) [] = refl
text_eq_sym (c ∷ s) (d ∷ t) = ground (arith, text_eq_sym s t)

eq_cell_sym : (v w : Option Text) → eq_cell v w ≡ eq_cell w v
eq_cell_sym none none = refl
eq_cell_sym none (some t) = refl
eq_cell_sym (some s) none = refl
eq_cell_sym (some s) (some t) = text_eq_sym s t

leb_cell-total : (v w : Option Text) → leb_cell v w ≡ false → leb_cell w v ≡ true
leb_cell-total none w h = absurd (ground (arith, h))
leb_cell-total (some s) none h = refl
leb_cell-total (some s) (some t) h = leb_text-total s t h

leb_row-total : (x y : TextRow) → leb_row x y ≡ false → leb_row y x ≡ true
leb_row-total [] y h = absurd (ground (arith, h))
leb_row-total (v ∷ s) [] h = refl
leb_row-total (v ∷ s) (w ∷ t) h =
    ground (arith, h, eq_cell_sym v w, leb_row-total s t, leb_cell-total v w)

-- The schemas of the database and the two that the gateway adds are listed in order.
pub all_schemas-IsSorted : (schemas : List TextRow) → IsSorted leb_row (all_schemas schemas)
unfolding all_schemas
all_schemas-IsSorted schemas =
    sort-IsSorted leb_row leb_row-total
      (schemas ++ (some (codes "information_schema") ∷ []) ∷ (some (codes "pg_catalog") ∷ []) ∷ [])
