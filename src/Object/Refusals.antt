-- ===== src/Object/Refusals.antt =====
-- A read past the end of an object is an error of the sheet that `d_obj_load` of src/dobj.c gives.
use decision.Prelude.{ℕ, ◌≤◌, ◌≡◌, true, false, List, some, length}
use decision.Sheet.{Sheet}
use decision.Object.Reader.{ObjectReader, Read}
use decision.Object.Load.{Loaded}
use decision.Object.Bounds.{IsWithin, extended}

-- An action that stays inside, and tells of a read past the end.
record Flags (m : Read Loaded) : Type 0 where
  flags :
      (r : ObjectReader) (loaded : Loaded) (r' : ObjectReader)
      → r.ptr ≤ length r.obj
      → m r ≡ some (loaded, r')
      → IsWithin r r' × (r'.error ≡ true → loaded.sheet.has_errors ≡ true)
  stable :
      (r : ObjectReader) (loaded : Loaded) (r' : ObjectReader) (more : List ℕ)
      → r.ptr ≤ length r.obj
      → m r ≡ some (loaded, r')
      → r'.error ≡ false
      → m (extended more r) ≡ some (loaded, extended more r')
