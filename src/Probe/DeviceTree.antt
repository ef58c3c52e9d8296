-- ===== src/Probe/DeviceTree.antt =====
-- A reader of flattened device trees, by the Devicetree Specification, and what it reads of the device
-- tree of the Linux contract test (hw_bringup/ps_uart_probe_sbi.c).
use zynq_cpu.Base.{
  ℕ, zero, suc, ◌+◌, ◌*◌, ◌/◌, ◌%◌, ◌^◌, ◌<◌, ◌≡◌, refl, ap, ◌∙◌, Store, leb, codes, ◌==◌, ◌&&◌,
  if◌then◌else◌, true, false, List, [], ◌∷◌, ◌++◌, length, Option, none, some, arith,
}
use zynq_cpu.Console.Writer.{char_at}
use zynq_cpu.Probe.Contract.{device_tree}

-- The byte at an offset of a list of words of which each is stored from its low byte on.
abbrev byte_at : List ℕ → ℕ → ℕ
byte_at words off = char_at words (off / 4) / 256 ^ (off % 4) % 256

-- A cell of the tree, its high byte first.
abbrev cell_at : List ℕ → ℕ → ℕ
cell_at words off =
    ((byte_at words off * 256 + byte_at words (off + 1)) * 256 + byte_at words (off + 2)) * 256
    + byte_at words (off + 3)

-- The string at an offset, up to its zero.
unfoldable string_at : ℕ → List ℕ → ℕ → List ℕ
string_at zero words off = []
string_at (suc n) words off =
    let rest = string_at n words (off + 1) in
    if byte_at words off == 0 then [] else byte_at words off ∷ rest

-- The cells of a property of `n` words.
unfoldable cells_at : ℕ → List ℕ → ℕ → List ℕ
cells_at zero words off = []
cells_at (suc n) words off = cell_at words off ∷ cells_at n words (off + 4)

-- Rounded up to a multiple of 4.
abbrev padded : ℕ → ℕ
padded n = (n + 3) / 4 * 4

-- What the structure block has: a node opens, with its name, or closes; a property has a name and cells.
pub data Item : Type 0 where
  opens : List ℕ → Item
  closes : Item
  property : List ℕ → List ℕ → Item

-- The item at an offset of the structure block, and the offset behind it.
unfoldable one_item : List ℕ → ℕ → ℕ → Option (List Item × ℕ)
one_item words strings off =
    let token = cell_at words off in
    let name = string_at 32 words (off + 4) in
    let len = cell_at words (off + 4) in
    if token == 1
    then some (opens name ∷ [], off + 4 + padded (length name + 1))
    else if token == 2
    then some (closes ∷ [], off + 4)
    else if token == 3
    then some (
      property (string_at 32 words (strings + cell_at words (off + 8)))
            (cells_at (len / 4) words (off + 12))
          ∷ [],
      off + 12 + padded len,
    )
    else if token == 4
    then some ([], off + 4)
    else none

abbrev prepend : List Item → Option (List Item) → Option (List Item)
prepend items none = none
prepend items (some later) = some (items ++ later)

-- The items up to the end token, at most `n` tokens.
unfoldable read_items : ℕ → List ℕ → ℕ → ℕ → Option (List Item)
read_items zero words strings off = none
read_items (suc n) words strings off = elim (cell_at words off == 9) [
  | true ↦ some []
  | false ↦ elim (one_item words strings off) [
    | none ↦ none
    | some (items, next) ↦ prepend items (read_items n words strings next)
  ]
]

-- A tree in `words`: the magic number, the size, a version that is compatible with 17, and the items.
unfoldable pub read_tree : List ℕ → Option (List Item)
unfolding read_items one_item string_at cells_at
read_tree words =
    if cell_at words 0 == 0xD00DFEED
      && (leb (cell_at words 4) (length words * 4)
          && (leb 17 (cell_at words 20) && leb (cell_at words 24) 17))
    then read_items (length words) words (cell_at words 12) (cell_at words 8)
    else none

-- Memory at an address, `n` words.
abbrev pub words_from : Store → ℕ → ℕ → List ℕ
words_from m a zero = []
words_from m a (suc n) = m a ∷ words_from m (a + 4) n

-- The word at a place of the tree, from what stands there before.
abbrev pub tree_word : List (ℕ × ℕ) → ℕ → ℕ → ℕ
tree_word [] i old = old
tree_word ((j, w) ∷ words) i old = tree_word words i (if i == j then w else old)

abbrev pub words_placed : ℕ → ℕ → List ℕ
words_placed i zero = []
words_placed i (suc n) = tree_word device_tree i 0 ∷ words_placed (i + 1) n

abbrev pub memory_tree : List Item
memory_tree =
    opens []
    ∷ property (codes "#address-cells") (1 ∷ [])
    ∷ property (codes "#size-cells") (1 ∷ [])
    ∷ opens (codes "memory@80000000")
    ∷ property (codes "reg") (0x80000000 ∷ 0x40000000 ∷ [])
    ∷ closes
    ∷ closes
    ∷ []

pub read_tree-placed : read_tree (words_placed 0 64) ≡ some memory_tree
unfolding read_tree read_items one_item string_at cells_at
read_tree-placed = refl

pub words_from-placed :
    (m : Store) (a n i : ℕ)
    → ((k : ℕ) → k < n → m (a + k * 4) ≡ tree_word device_tree (i + k) 0)
    → words_from m a n ≡ words_placed i n
words_from-placed m a zero i each = refl
words_from-placed m a (suc n) i each =
    let at : a ≡ a + 0 * 4 = omega arith in
    let first : m a ≡ tree_word device_tree i 0 =
      let first_place : i + 0 ≡ i = omega arith in
      ap m at ∙ each 0 (omega arith) ∙ ap (λ j. tree_word device_tree j 0) first_place in
    let later : words_from m (a + 4) n ≡ words_placed (i + 1) n =
      words_from-placed m (a + 4) n (i + 1) (λ k lt.
        let next : a + 4 + k * 4 ≡ a + suc k * 4 = omega arith in
        let next_place : i + suc k ≡ i + 1 + k = omega arith in
        ap m next ∙ each (suc k) (omega arith) ∙ ap (λ j. tree_word device_tree j 0) next_place) in
    cc (first, later)
