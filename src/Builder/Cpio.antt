-- ===== src/Builder/Cpio.antt =====
-- internal/builder/cpio.go: the newc archive. A writer is a call on a world `W`, which says whether
-- it succeeds; what Walk, Readlink and Open give is part of an item.
pub mod Alignment
mod Tests
use a_from_scratch_linux_use.Base.{
  ℕ, zero, suc, ◌+◌, ◌-◌, ◌*◌, ◌/◌, ◌%◌, ◌^◌, Bool, true, false, ◌&&◌, ◌||◌, Option, none, some,
  List, [], ◌∷◌, ◌++◌, ◌==◌, ltb, if◌then◌else◌, Bytes, str, length, replicate,
}

-- CPIOHeader. The numbers are uint32, so they are below 2 ^ 32.
pub record CpioHeader : Type 0 where
  pub ino : ℕ
  pub mode : ℕ
  pub uid : ℕ
  pub gid : ℕ
  pub nlink : ℕ
  pub mtime : ℕ
  pub file_size : ℕ
  pub dev_maj : ℕ
  pub dev_min : ℕ
  pub rdev_maj : ℕ
  pub rdev_min : ℕ
  pub name : Bytes

abbrev pub hex_digit : ℕ → ℕ
hex_digit d = if ltb d 10 then 48 + d else 55 + d

-- The last `n` digits of a number, in front of a text.
abbrev pub hex_digits : ℕ → ℕ → Bytes → Bytes
hex_digits zero x rest = rest
hex_digits (suc n) x rest = hex_digits n (x / 16) (hex_digit (x % 16) ∷ rest)

-- %08X of a uint32
unfoldable pub hex8 : ℕ → Bytes
hex8 x = hex_digits 8 (x % 2 ^ 32) []

pub data CpioError : Type 0 where
  invalid_header write_failed copy_failed size_mismatch : CpioError
  walk_failed readlink_failed open_failed : CpioError

-- A world, and the error that a call on it returns.
abbrev pub Result : Type 0 → Type 0
Result W = W × Option CpioError

-- `if err != nil { return err }`
abbrev pub unless_failed : {W : Type 0} → Result W → (W → Result W) → Result W
unless_failed (w, some e) f = (w, some e)
unless_failed (w, none) f = f w

abbrev pub status : {W : Type 0} → CpioError → W × Bool → Result W
status e (w, true) = (w, none)
status e (w, false) = (w, some e)

-- The text of the header.
unfoldable pub header_text : CpioHeader → ℕ → Bytes
header_text h name_size =
    str "070701"
    ++ (hex8 h.ino
        ++ (hex8 h.mode
            ++ (hex8 h.uid
                ++ (hex8 h.gid
                    ++ (hex8 h.nlink
                        ++ (hex8 h.mtime
                            ++ (hex8 h.file_size
                                ++ (hex8 h.dev_maj
                                    ++ (hex8 h.dev_min
                                        ++ (hex8 h.rdev_maj
                                            ++ (hex8 h.rdev_min
                                                ++ (hex8 name_size ++ str "00000000"))))))))))))

-- cpioHeaderSz
abbrev pub cpio_header_size : ℕ
cpio_header_size = 110

-- (4 - n % 4) % 4
abbrev pub pad_size : ℕ → ℕ
pad_size n = (4 - n % 4) % 4

abbrev pub header : ℕ → ℕ → ℕ → ℕ → ℕ → Bytes → CpioHeader
header ino mode nlink mtime file_size name = record {
  ino = ino;
  mode = mode;
  uid = 0;
  gid = 0;
  nlink = nlink;
  mtime = mtime;
  file_size = file_size;
  dev_maj = 0;
  dev_min = 0;
  rdev_maj = 0;
  rdev_min = 0;
  name = name;
}

-- What Walk finds below the root, by its kind: a directory, a link with the text that Readlink
-- gives, or another file with an executable bit in its mode and what Open gives to copy.
pub data Kind : Type 0 where
  directory : Kind
  symlink : Option Bytes → Kind
  regular : Bool → Option (Bytes × Bool) → Kind

-- An entry of the archive: relPath, what it is, and the size of its FileInfo.
pub record Item : Type 0 where
  pub rel_path : Bytes
  pub kind : Kind
  pub size : ℕ

-- a < b for strings
unfoldable pub str_lt : Bytes → Bytes → Bool
str_lt xs [] = false
str_lt [] (y ∷ ys) = true
str_lt (x ∷ xs) (y ∷ ys) = ltb x y || (x == y && str_lt xs ys)

unfoldable pub insert : Item → List Item → List Item
unfolding str_lt
insert x [] = x ∷ []
insert x (y ∷ ys) =
    let rest = insert x ys in if str_lt y.rel_path x.rel_path then y ∷ rest else x ∷ y ∷ ys

-- sort.Slice by relPath; the paths of a walk are different from one another.
unfoldable pub sort_items : List Item → List Item
unfolding insert
sort_items [] = []
sort_items (x ∷ xs) = insert x (sort_items xs)

module _ {W : Type 0} (write : Bytes → W → W × Bool) where
  abbrev pub emit : Bytes → W → Result W
  emit bytes w = status write_failed (write bytes w)

  -- The zeros up to the next multiple of 4; nothing is written where there are none.
  unfoldable pub pad : ℕ → W → Result W
  pad n w = if ltb 0 (pad_size n) then emit (replicate (pad_size n) 0) w else (w, none)

  -- WriteCPIOHeader
  unfoldable pub write_cpio_header : CpioHeader → W → Result W
  unfolding pad
  write_cpio_header h w =
      let name_bytes = h.name ++ (0 ∷ []) in
      let text = header_text h (length name_bytes % 2 ^ 32) in
      if length text == cpio_header_size
      then unless_failed (emit text w)
          (λ w1. unless_failed (emit name_bytes w1) (pad (cpio_header_size + length name_bytes)))
      else (w, some invalid_header)

  -- What io.Copy takes from a reader: its bytes, and whether it ends without an error.
  abbrev copy : Bytes × Bool → W → Result W
  copy (bytes, ok) w =
      unless_failed (status copy_failed (write bytes w))
        (λ w1. if ok then (w1, none) else (w1, some copy_failed))

  write_body : CpioHeader → Option (Bytes × Bool) → W → Result W
  unfolding pad
  write_body h none w = (w, none)
  write_body h (some r) w =
      if ltb 0 h.file_size
      then unless_failed (copy r w) (λ w1.
        if length r.0 % 2 ^ 32 == h.file_size then pad h.file_size w1 else (w1, some size_mismatch))
      else (w, none)

  -- WriteCPIOEntry; the reader is none where it is nil.
  unfoldable pub write_cpio_entry : CpioHeader → Option (Bytes × Bool) → W → Result W
  unfolding write_cpio_header write_body
  write_cpio_entry h r w = unless_failed (write_cpio_header h w) (write_body h r)

  -- WriteCPIOTrailer
  unfoldable pub write_cpio_trailer : W → Result W
  unfolding write_cpio_entry
  write_cpio_trailer w = write_cpio_entry (header 0 0 1 0 0 (str "TRAILER!!!")) none w

  write_regular : CpioHeader → Option (Bytes × Bool) → W → Result W
  unfolding write_cpio_entry
  write_regular h none w = (w, some open_failed)
  write_regular h (some r) w = write_cpio_entry h (some r) w

  write_symlink : ℕ → ℕ → Item → Option Bytes → W → Result W
  unfolding write_cpio_entry
  write_symlink ino mtime i none w = (w, some readlink_failed)
  write_symlink ino mtime i (some target) w =
      write_cpio_entry (header ino 41471 1 mtime (length target % 2 ^ 32) i.rel_path)
        (some (target, true)) w

  -- One entry of the archive, in canonical form.
  write_kind : ℕ → ℕ → Item → Kind → W → Result W
  unfolding write_cpio_entry write_regular write_symlink
  write_kind ino mtime i directory w =
      write_cpio_entry (header ino 16877 2 mtime 0 i.rel_path) none w
  write_kind ino mtime i (symlink target) w = write_symlink ino mtime i target w
  write_kind ino mtime i (regular executable file) w =
      write_regular
        (header ino (if executable then 33261 else 33188) 1 mtime (i.size % 2 ^ 32) i.rel_path) file
        w

  -- The loop over the entries, and the trailer behind it.
  unfoldable pub write_items : ℕ → ℕ → List Item → W → Result W
  unfolding write_kind write_cpio_trailer
  write_items ino mtime [] w = write_cpio_trailer w
  write_items ino mtime (i ∷ is) w =
      unless_failed (write_kind ino mtime i i.kind w) (write_items ((ino + 1) % 2 ^ 32) mtime is)

  -- PackCPIOInitramfs over what Walk finds, none where it fails; `mtime` is the fixed time.
  unfoldable pub pack_cpio_initramfs : ℕ → Option (List Item) → W → Result W
  unfolding write_items sort_items
  pack_cpio_initramfs mtime none w = (w, some walk_failed)
  pack_cpio_initramfs mtime (some items) w = write_items 1 mtime (sort_items items) w
