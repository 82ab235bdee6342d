-- ===== src/Store/Inserts.antt =====
-- Inserts, and the orders of the lists that internal/store returns. The rows that an insert refers
-- to have been read by the operation that inserts, so the foreign keys hold.
use buildbee.Base.{Bool, ◌&&◌, ◌||◌, List, ◌∷◌, ltb, ◌==◌, if◌then◌else◌}
use buildbee.Base.Result.{conflict, ok, err}
use buildbee.Text.{Text}
use buildbee.Models.Records.{Time}
use buildbee.Store.{Db, W, changes_work}
use buildbee.Store.Rows.{find_row}
use buildbee.Store.Runs.{is_some, text_leb}

abbrev pub set_st : (Db → Db) → W (Unit {0})
set_st f = changes_work (λ w. record w { st = f w.st })

-- INSERT of a row whose id must be new.
unfoldable pub insert_row :
    {A : Type 0} → (A → Text) → (Db → List A) → (List A → Db → Db) → A → W (Unit {0})
unfolding find_row
insert_row key table set a w =
    if is_some (find_row key (key a) (table w.st))
    then err conflict
    else ok (tt, record w { st = set (a ∷ table w.st) w.st })

-- ORDER BY created_at, id, and ORDER BY created_at DESC, id
unfoldable pub oldest : {A : Type 0} → (A → Time) → (A → Text) → A → A → Bool
unfolding text_leb
oldest time key a b = ltb (time a) (time b) || ((time a == time b) && text_leb (key a) (key b))

unfoldable pub newest : {A : Type 0} → (A → Time) → (A → Text) → A → A → Bool
unfolding text_leb
newest time key a b = ltb (time b) (time a) || ((time a == time b) && text_leb (key a) (key b))
