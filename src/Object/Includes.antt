-- ===== src/Object/Includes.antt =====
-- The section of the includes of an object of src/dobj.c.
use decision.Prelude.{◌<◌, ◌≡◌, refl, true, List, [], ◌∷◌, some, length, arith}
use decision.Prelude.Chars.{codes}
use decision.Sheet.{Included, Sheet}
use decision.Object.Reader.{ObjectReader, test_ahead, reader_test_string_n}
use decision.Object.Generate.{written_path}
use decision.Object.Load.{Compiler, Loaded, load_path, load_paths, load_incl}
use decision.Object.Reads.{IsAhead, >>=-eq, Reads, bind-Reads, pure-Reads}
use decision.Object.Definitions.{text-Reads}
use decision.Object.Loads.{part_bytes, present-Reads, test_ahead_short}
use decision.Object.Parts.{includes_bytes, AllStoredIncludes, incl_part, IsStored}

-- The sheets that are included, one after the other.
abbrev pub paths_loaded : Compiler → List Included → Loaded → Loaded
paths_loaded compiler [] state = state
paths_loaded compiler (i ∷ is) state =
    paths_loaded compiler is (load_path compiler [] [] (written_path i) state)

paths-Reads :
    (compiler : Compiler) (is : List Included) (state : Loaded)
    → AllStoredIncludes is
    → Reads
        (load_paths compiler [] [] (length is) state)
        (includes_bytes is)
        (paths_loaded compiler is state)
unfolding load_paths
paths-Reads compiler [] state h = pure-Reads state
paths-Reads compiler (i ∷ is) state h =
    bind-Reads _ (text-Reads (some (written_path i)) h.0)
      (paths-Reads compiler is (load_path compiler [] [] (written_path i) state) h.1)

-- The last section: without includes the test for its tag runs into the end of the object.
pub incl-Reads :
    (compiler : Compiler) (s sheet : Sheet)
    → IsStored s
    → 0 < length s.includes
    → Reads
        (load_incl compiler [] [] sheet)
        (part_bytes (incl_part s))
        (paths_loaded compiler s.includes (record { sheet = sheet; reported = [] }))
unfolding load_incl
incl-Reads compiler s sheet h full =
    present-Reads (incl_part s) (record { sheet = record sheet { includes = [] }; reported = [] }) _
      (paths_loaded compiler s.includes (record { sheet = sheet; reported = [] })) h.includes_size
      full (paths-Reads compiler s.includes (record { sheet = sheet; reported = [] }) h.includes)

pub load_incl_end :
    (compiler : Compiler) (sheet : Sheet) (r : ObjectReader)
    → IsAhead r []
    → load_incl compiler [] [] sheet r
      ≡ some (
        record { sheet = record sheet { includes = [] }; reported = [] },
        record r { error = true },
      )
unfolding load_incl reader_test_string_n
load_incl_end compiler sheet r h =
    >>=-eq (reader_test_string_n (codes ".incl")) _ r
      (>>=-eq (test_ahead 5) _ r (test_ahead_short 5 r [] h refl (omega arith) (omega arith)))
