-- ===== src/Io/File.antt =====
-- `load_file` and `_load_file` of src/bas/io/file.c. The file is the bytes that are left to read and
-- the round of `fread` that fails, if one does; `fread` returns fewer bytes than a block only at the
-- end of the file, where `feof` is then true. The block of memory is the bytes written behind
-- `mem_off` and its size, `held`, which is 0 for NULL and else the capacity. size_t wraps around.
pub mod Content
use bas_c.Common.{
  ℕ, zero, suc, ◌+◌, ◌-◌, ◌*◌, ◌%◌, ◌^◌, Bool, true, false, not, ◌&&◌, Option, none, some, [], ◌∷◌,
  ◌++◌, Bytes, ltb, leb, ◌==◌, if◌then◌else◌, length, take, drop,
}
use bas_c.Base.Getline.{Answers, answer, later}

abbrev pub block_size : ℕ
block_size = 64

-- The file that is open: `fails` counts the blocks before the one that cannot be read.
pub record Source : Type 0 where
  pub rest : Bytes
  pub fails : Option ℕ

-- How a call ends: `outside` writes behind the block of memory, `exits` calls `exit(1)`.
pub data Loaded : Type 0 where
  loaded : Bytes → ℕ → Loaded
  nothing : Loaded
  outside : Loaded
  exits : Loaded
  out_of_fuel : Loaded

-- `capacity - off - padding` in size_t.
unfoldable pub remaining : ℕ → ℕ → ℕ → ℕ
remaining capacity off padding = (capacity + 2 * 2 ^ 64 - off - padding) % 2 ^ 64

pub data Room : Type 0 where
  room : ℕ → Answers → Room
  no_memory : Room
  no_end : Room

-- The inner loop: the capacity doubles until the block that was read fits; on fuel.
unfoldable pub grow : ℕ → Answers → ℕ → ℕ → ℕ → ℕ → Room
grow zero an capacity off padding cb = no_end
grow (suc f) an capacity off padding cb =
    let larger = grow f (later an) (capacity * 2) off padding cb in
    if leb cb (remaining capacity off padding)
    then room capacity an
    else if answer an
    then larger
    else no_memory

unfoldable pub stops_here : Option ℕ → Bool
stops_here (some zero) = true
stops_here _ = false

unfoldable pub after_block : Option ℕ → Option ℕ
after_block (some (suc k)) = some k
after_block o = o

abbrev pub is_empty : Bytes → Bool
is_empty [] = true
is_empty (c ∷ s) = false

-- The size of the block when the capacity was `old` and is `new`.
abbrev pub held_then : ℕ → ℕ → ℕ → ℕ
held_then held old new = if old == new then held else new

unfoldable pub returned : Bytes → ℕ → Loaded
returned stored held = if held == 0 then nothing else loaded stored held

-- The outer loop; `stored` stands behind `mem_off`.
unfoldable pub load_blocks : ℕ → Answers → Source → ℕ → ℕ → Bytes → ℕ → ℕ → Loaded
load_blocks zero an source capacity held stored mem_off padding = out_of_fuel
load_blocks (suc f) an source capacity held stored mem_off padding =
    let block = take block_size source.rest in
    let off = mem_off + length stored in
    if stops_here source.fails
    then nothing
    else elim (grow 64 an capacity off padding (length block)) [
      | no_end ↦ out_of_fuel
      | no_memory ↦ exits
      | room capacity' an' ↦
          if not (is_empty block) && ltb (held_then held capacity capacity') (off + length block)
          then outside
          else if ltb (length source.rest) block_size
          then returned (stored ++ block) (held_then held capacity capacity')
          else load_blocks f an'
              (record { rest = drop block_size source.rest; fails = after_block source.fails })
              capacity' (held_then held capacity capacity') (stored ++ block) mem_off padding
    ]

-- `_load_file` of a stream at its start, with what is stored and the size of the block.
unfoldable pub load_stream : Answers → Source → ℕ → ℕ → Loaded
load_stream an source mem_off padding =
    load_blocks (suc (length source.rest)) (later an) source 16 (if answer an then 16 else 0) []
      mem_off padding

-- `load_file`, of a path that cannot be opened or the file behind it.
unfoldable pub load_file : Answers → Option Source → ℕ → ℕ → Loaded
load_file an none mem_off padding = nothing
load_file an (some source) mem_off padding = load_stream an source mem_off padding
