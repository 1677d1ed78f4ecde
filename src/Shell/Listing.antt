-- ===== src/Shell/Listing.antt =====
-- The commands `ls`: the flags `latest` and `quiet`, and the table with one line for each row.
use sshportal.Base.{
  ℕ, suc, ◌-◌, leb, String, ◌<>◌, Bool, Option, none, some, List, [], ◌∷◌, map, length,
  if◌then◌else◌, Result, ok, err, join,
}
use sshportal.Base
use Prim.Native.String.{len, slice}
use sshportal.Strconv.Printing.{decimal}
use sshportal.Models.{User}
use sshportal.Shell.Store.{Table}
use sshportal.Shell.Actions.{
  Context, Reply, ids, listing, Action, ◌>>=◌, ◌>>◌, pure, query, require,
}

-- wrapText
unfoldable pub wrap_text : String → ℕ → String
wrap_text s length = if leb (len s) length then s else slice s 0 (length - 3) <> "..."

-- First on a query that is ordered
abbrev pub latest : {R : Type 0} → Result String (List R) → Result String (List R)
latest (err e) = err e
latest (ok []) = err "record not found"
latest (ok (r ∷ _)) = ok (r ∷ [])

-- the rows in the order of the loop that appends them
abbrev pub all_cells :
    {R : Type 0} → (R → Result String (List String)) → List R → Result String (List (List String))
all_cells cells [] = ok []
all_cells cells (r ∷ rs) =
    Base.◌>>=◌ (cells r) (λ x. Base.◌>>=◌ (all_cells cells rs) (λ xs. ok (x ∷ xs)))

module _ {S R : Type 0} (t : Table S R) (myself : User) (c : Context) where
  unfoldable pub shown_rows : Action S (List R)
  shown_rows = if c.bool "latest" then query (λ s. latest (t.newest s)) else query t.newest

  row_ids : List R → List ℕ
  row_ids rows = map (λ r. (t.columns r).id) rows

  -- the table, under the rows that were found
  unfoldable pub print_rows :
      List String → String → (S → R → Result String (List String)) → List R → Action S Reply
  unfolding row_ids
  print_rows header what cells rows = if c.bool "quiet" then pure (ids (row_ids rows)) else do
    filled ← query (λ s. all_cells (cells s) rows)
    pure (
        listing (record {
          header = header;
          caption = "Total: " <> decimal (length rows) <> " " <> what <> ".";
          cells = filled;
        }))

  unfoldable pub list_rows :
      List String → List String → String → (S → R → Result String (List String)) → Action S Reply
  unfolding require shown_rows print_rows
  list_rows roles header what cells = do
    require myself roles
    rows ← shown_rows
    print_rows header what cells rows
