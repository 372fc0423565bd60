-- ===== src/Object/Sections.antt =====
-- Every section of an object of src/dobj.c, loaded into a sheet: what is read off the bytes that
-- are written for it.
use Prim.Native.String.{String}
use mathlib.Core.List.{append-nil}
use decision.Prelude.{ℕ, ◌<◌, ◌≡◌, refl, ap, subst, List, [], ◌∷◌, ◌++◌, length, arith, word_mod}
use decision.Prelude.Chars.{codes}
use decision.Sheet.{LinkMeta, InstructionToLink, Section, bytes, null_section, Sheet}
use decision.Object.Reader.{Read, ◌>>=◌, pure}
use decision.Object.Generate.{section_size}
use decision.Object.Load.Sections.{
  section_of, load_bytes, load_text, load_data, load_main, load_lmeta, load_link, read_metas,
}
use decision.Object.Reads.{Reads, pure-Reads}
use decision.Object.Texts.{string_n-Reads}
use decision.Object.Definitions.{map-Reads}
use decision.Object.Loads.{part_bytes, Loads, Reads-Loads, bind-Loads, IsForeign, part-Loads}
use decision.Object.Parts.{
  content, metas_bytes, metas_again, IsStoredSection, text_part, main_part, data_part, link_part,
  ins_part, IsStored,
}
use decision.Object.Bodies.{metas-Reads, links-Reads}

map-Loads :
    {A B : Type 0} {m : Read A} (f : A → B) {bs rest : List ℕ} {a : A}
    → Loads m bs rest a
    → Loads (m >>= λ x. pure (f x)) bs rest (f a)
map-Loads {m = m} f {bs = bs} {rest = rest} {a = a} h =
    subst (λ cs. Loads (m >>= λ x. pure (f x)) cs rest (f a)) (append-nil bs)
      (bind-Loads (λ x. pure (f x)) h (Reads-Loads (pure-Reads (f a))))

bytes-Loads :
    (tag : String) (section : Section) (rest : List ℕ)
    → 0 < length (codes tag)
    → length (codes tag) < 8
    → IsStoredSection section
    → IsForeign (codes tag) rest
    → Loads
        (load_bytes tag)
        (part_bytes
          (record { tag = codes tag; size = section_size section; body = content section }))
        rest
        section
unfolding load_bytes section_size section_of
bytes-Loads tag (bytes xs) rest long short h foreign =
    part-Loads (record { tag = codes tag; size = length xs; body = xs }) rest (bytes []) _
      (bytes xs) long short h.1 foreign (empty xs)
      (λ full. map-Reads (section_of (length xs)) (string_n-Reads xs))
  where
    empty : (ys : List ℕ) → length ys ≡ 0 → bytes ys ≡ bytes []
    empty [] e = refl
    empty (y ∷ ys) e = absurd (omega arith)
bytes-Loads tag (null_section n) rest long short h foreign = absurd (cc h.0)

pub text-Loads :
    (s sheet : Sheet) (rest : List ℕ)
    → IsStoredSection s.text
    → IsForeign (codes ".text") rest
    → Loads (load_text sheet) (part_bytes (text_part s)) rest (record sheet { text = s.text })
unfolding load_text
text-Loads s sheet rest h foreign =
    map-Loads (λ section. record sheet { text = section })
      (bytes-Loads ".text" s.text rest (omega arith) (omega arith) h foreign)

pub data-Loads :
    (s sheet : Sheet) (rest : List ℕ)
    → IsStoredSection s.data_
    → IsForeign (codes ".data") rest
    → Loads (load_data sheet) (part_bytes (data_part s)) rest (record sheet { data_ = s.data_ })
unfolding load_data
data-Loads s sheet rest h foreign =
    map-Loads (λ section. record sheet { data_ = section })
      (bytes-Loads ".data" s.data_ rest (omega arith) (omega arith) h foreign)

pub main-Loads :
    (s sheet : Sheet) (rest : List ℕ)
    → s.main < word_mod
    → IsForeign (codes ".main") rest
    → Loads (load_main sheet) (part_bytes (main_part s)) rest (record sheet { main = s.main })
unfolding load_main
main-Loads s sheet rest h foreign =
    part-Loads (main_part s) rest (record sheet { main = 0 })
      (λ n. pure (record sheet { main = n })) (record sheet { main = s.main }) (omega arith)
      (omega arith) h foreign (λ e. ap (λ n. record sheet { main = n }) e)
      (λ full. pure-Reads (record sheet { main = s.main }))

metas_empty : (address : ℕ) (list : List LinkMeta) → length list ≡ 0 → metas_again address list ≡ []
metas_empty address [] e = refl
metas_empty address (m ∷ list) e = absurd (omega arith)

pub lmeta-Loads :
    (s sheet : Sheet) (rest : List ℕ)
    → IsStored s
    → sheet.link ≡ []
    → IsForeign (codes ".lmeta") rest
    → Loads
        (load_lmeta sheet)
        (part_bytes (link_part s))
        rest
        (record sheet { link = metas_again s.address s.link })
unfolding load_lmeta
lmeta-Loads s sheet rest h none_yet foreign =
    part-Loads (link_part s) rest (record sheet { link = [] }) _
      (record sheet { link = metas_again s.address s.link }) (omega arith) (omega arith) h.link_size
      foreign (λ e. ap (λ l. record sheet { link = l }) (metas_empty s.address s.link e))
      (λ full.
        map-Reads (λ l. record sheet { link = l })
          (subst (Reads (read_metas (length s.link) sheet.link) (metas_bytes s.address s.link))
            (ap (λ l. l ++ metas_again s.address s.link) none_yet)
            (metas-Reads s.address s.link sheet.link h.link)))

links_empty : (list : List InstructionToLink) → length list ≡ 0 → list ≡ []
links_empty [] e = refl
links_empty (l ∷ list) e = absurd (omega arith)

pub link-Loads :
    (s sheet : Sheet) (rest : List ℕ)
    → IsStored s
    → IsForeign (codes ".link") rest
    → Loads
        (load_link sheet)
        (part_bytes (ins_part s))
        rest
        (record sheet { ins_link_list = s.ins_link_list })
unfolding load_link
link-Loads s sheet rest h foreign =
    part-Loads (ins_part s) rest (record sheet { ins_link_list = [] }) _
      (record sheet { ins_link_list = s.ins_link_list }) (omega arith) (omega arith) h.ins_size
      foreign (λ e. ap (λ l. record sheet { ins_link_list = l }) (links_empty s.ins_link_list e))
      (λ full.
        map-Reads (λ l. record sheet { ins_link_list = l })
          (links-Reads s.ins_link_list h.ins_link_list))
