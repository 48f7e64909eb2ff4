-- ===== src/Builder/Cpio/Alignment.antt =====
-- What the functions of internal/builder/cpio.go write into a buffer of bytes.
use a_from_scratch_linux_use.Base.{
  ℕ, ◌+◌, ◌%◌, ◌^◌, ◌≡◌, refl, sym, subst, Bool, true, false, Option, none, some, List, [], ◌∷◌,
  ◌++◌, ◌==◌, ltb, if◌then◌else◌, arith, Bytes, str, length, All, length-append, length-replicate,
  replicate,
}
use a_from_scratch_linux_use.Builder.Cpio.{
  CpioHeader, hex8, header_text, Result, unless_failed, pad_size, pad, emit, header, Item, Kind,
  directory, symlink, regular, write_cpio_header, write_body, write_cpio_entry, write_cpio_trailer,
  write_regular, write_symlink, write_kind, write_items, sort_items, insert, str_lt,
  pack_cpio_initramfs, copy_failed, invalid_header, size_mismatch, copy,
}

-- Write of a bytes.Buffer.
abbrev pub append_bytes : Bytes → Bytes → Bytes × Bool
append_bytes bytes w = (w ++ bytes, true)

-- The reader gives all of its bytes, as many as the header says.
abbrev HasSize : ℕ → Option (Bytes × Bool) → Type 0
HasSize n none = Unit
HasSize n (some (bytes, ok)) = (ok ≡ true) × (length bytes % 2 ^ 32 ≡ n)

-- What was found can be packed: the link can be read, or the file has the size that Walk found.
abbrev KindCanBePacked : ℕ → Kind → Type 0
KindCanBePacked n directory = Unit
KindCanBePacked n (symlink none) = ⊥
KindCanBePacked n (symlink (some target)) = Unit
KindCanBePacked n (regular x none) = ⊥
KindCanBePacked n (regular x (some r)) = HasSize (n % 2 ^ 32) (some r)

abbrev pub CanBePacked : Item → Type 0
CanBePacked i = KindCanBePacked i.size i.kind

length-header_text : (h : CpioHeader) (n : ℕ) → length (header_text h n) ≡ 110
unfolding header_text hex8
length-header_text h n = refl

-- There is no error, and the archive ends at a multiple of 4.
abbrev Aligned : Result Bytes → Type 0
Aligned (w, none) = length w % 4 ≡ 0
Aligned (w, some e) = ⊥

unless_failed-Aligned :
    (r : Result Bytes) (f : Bytes → Result Bytes)
    → Aligned r
    → ((w : Bytes) → length w % 4 ≡ 0 → Aligned (f w))
    → Aligned (unless_failed r f)
unless_failed-Aligned (w, none) f h k = k w h
unless_failed-Aligned (w, some e) f h k = h

pad-Aligned : (n : ℕ) (w : Bytes) → (length w + pad_size n) % 4 ≡ 0 → Aligned (pad append_bytes n w)
unfolding pad
pad-Aligned n w h = branch (ltb 0 (pad_size n)) refl
  where
    branch :
        (b : Bool)
        → ltb 0 (pad_size n) ≡ b
        → Aligned (if b then emit append_bytes (replicate (pad_size n) 0) w else (w, none))
    branch true e = omega (
      arith,
      h,
      length-append w (replicate (pad_size n) 0),
      length-replicate {A = ℕ} (pad_size n) 0,
    )
    branch false e = ground (arith, h)

write_cpio_header-Aligned :
    (h : CpioHeader) (w : Bytes) → length w % 4 ≡ 0 → Aligned (write_cpio_header append_bytes h w)
unfolding write_cpio_header
write_cpio_header-Aligned h w k =
    let nb = h.name ++ (0 ∷ []) in
    let text = header_text h (length nb % 2 ^ 32) in
    subst
      (λ n. Aligned (
        if n == 110
        then unless_failed (emit append_bytes text w)
            (λ w1. unless_failed (emit append_bytes nb w1) (pad append_bytes (110 + length nb)))
        else (w, some invalid_header)))
      (sym (length-header_text h (length nb % 2 ^ 32)))
      (pad-Aligned (110 + length nb) (w ++ text ++ nb) (
        omega (
          arith,
          k,
          length-append (w ++ text) nb,
          length-append w text,
          length-header_text h (length nb % 2 ^ 32),
        )))

write_body-Aligned :
    (h : CpioHeader) (r : Option (Bytes × Bool)) (w : Bytes)
    → HasSize h.file_size r
    → length w % 4 ≡ 0
    → Aligned (write_body append_bytes h r w)
unfolding write_body
write_body-Aligned h none w size k = k
write_body-Aligned h (some (bytes, ok)) w (fine, size) k = branch (ltb 0 h.file_size)
  where
    sized :
        (b : Bool)
        → (length bytes % 2 ^ 32 == h.file_size) ≡ b
        → Aligned (
            if b
            then pad append_bytes h.file_size (w ++ bytes)
            else (w ++ bytes, some size_mismatch))
    sized true e =
        pad-Aligned h.file_size (w ++ bytes) (ground (arith, k, length-append w bytes, e))
    sized false e = ground (arith, size, e)

    branch :
        (b : Bool)
        → Aligned (
            if b
            then unless_failed (copy append_bytes (bytes, ok) w) (λ w1.
              if length bytes % 2 ^ 32 == h.file_size
              then pad append_bytes h.file_size w1
              else (w1, some size_mismatch))
            else (w, none))
    branch true =
        subst
          (λ o. Aligned (
            unless_failed (if o then (w ++ bytes, none) else (w ++ bytes, some copy_failed)) (λ w1.
              if length bytes % 2 ^ 32 == h.file_size
              then pad append_bytes h.file_size w1
              else (w1, some size_mismatch))))
          (sym fine) (sized (length bytes % 2 ^ 32 == h.file_size) refl)
    branch false = k

write_cpio_entry-Aligned :
    (h : CpioHeader) (r : Option (Bytes × Bool)) (w : Bytes)
    → HasSize h.file_size r
    → length w % 4 ≡ 0
    → Aligned (write_cpio_entry append_bytes h r w)
unfolding write_cpio_entry
write_cpio_entry-Aligned h r w size k =
    unless_failed-Aligned (write_cpio_header append_bytes h w) (write_body append_bytes h r)
      (write_cpio_header-Aligned h w k) (λ w1. write_body-Aligned h r w1 size)

write_kind-Aligned :
    (ino mtime : ℕ) (i : Item) (kind : Kind) (w : Bytes)
    → KindCanBePacked i.size kind
    → length w % 4 ≡ 0
    → Aligned (write_kind append_bytes ino mtime i kind w)
unfolding write_kind write_symlink write_regular
write_kind-Aligned ino mtime i directory w c k =
    write_cpio_entry-Aligned (header ino 16877 2 mtime 0 i.rel_path) none w tt k
write_kind-Aligned ino mtime i (symlink none) w c k = c
write_kind-Aligned ino mtime i (symlink (some target)) w c k =
    write_cpio_entry-Aligned (header ino 41471 1 mtime (length target % 2 ^ 32) i.rel_path)
      (some (target, true)) w (refl, refl) k
write_kind-Aligned ino mtime i (regular x none) w c k = c
write_kind-Aligned ino mtime i (regular x (some r)) w c k =
    write_cpio_entry-Aligned
      (header ino (if x then 33261 else 33188) 1 mtime (i.size % 2 ^ 32) i.rel_path) (some r) w c k

write_items-Aligned :
    (ino mtime : ℕ) (is : List Item) (w : Bytes)
    → All CanBePacked is
    → length w % 4 ≡ 0
    → Aligned (write_items append_bytes ino mtime is w)
unfolding write_items write_cpio_trailer
write_items-Aligned ino mtime [] w c k =
    write_cpio_entry-Aligned (header 0 0 1 0 0 (str "TRAILER!!!")) none w tt k
write_items-Aligned ino mtime (i ∷ is) w c k =
    unless_failed-Aligned (write_kind append_bytes ino mtime i i.kind w)
      (write_items append_bytes ((ino + 1) % 2 ^ 32) mtime is)
      (write_kind-Aligned ino mtime i i.kind w c.0 k)
      (λ w1. write_items-Aligned ((ino + 1) % 2 ^ 32) mtime is w1 c.1)

insert-CanBePacked :
    (i : Item) (is : List Item) → CanBePacked i → All CanBePacked is → All CanBePacked (insert i is)
unfolding insert
insert-CanBePacked i [] c cs = (c, tt)
insert-CanBePacked i (j ∷ is) c cs =
    branch (str_lt j.rel_path i.rel_path) (insert-CanBePacked i is c cs.1)
  where
    branch :
        (b : Bool)
        → All CanBePacked (insert i is)
        → All CanBePacked (if b then j ∷ insert i is else i ∷ j ∷ is)
    branch true rest = (cs.0, rest)
    branch false rest = (c, cs)

sort_items-CanBePacked : (is : List Item) → All CanBePacked is → All CanBePacked (sort_items is)
unfolding sort_items
sort_items-CanBePacked [] cs = tt
sort_items-CanBePacked (i ∷ is) cs =
    insert-CanBePacked i (sort_items is) cs.0 (sort_items-CanBePacked is cs.1)

written : (r : Result Bytes) → Aligned r → (w : Bytes) × (r ≡ (w, none)) × (length w % 4 ≡ 0)
written (w, none) h = (w, refl, h)
written (w, some e) h = elim h [ ]

-- Where every link can be read and every file has the size that Walk found, packing into an empty
-- buffer succeeds, and the archive is a multiple of 4 bytes long.
pub pack_cpio_initramfs-aligned :
    (mtime : ℕ) (items : List Item)
    → All CanBePacked items
    → (archive : Bytes) × (pack_cpio_initramfs append_bytes mtime (some items) [] ≡ (archive, none))
      × (length archive % 4 ≡ 0)
unfolding pack_cpio_initramfs
pack_cpio_initramfs-aligned mtime items c =
    written (write_items append_bytes 1 mtime (sort_items items) [])
      (write_items-Aligned 1 mtime (sort_items items) [] (sort_items-CanBePacked items c) refl)
