-- ===== src/Builder/Cpio/Tests.antt =====
-- A concrete tree, and the theorem about archives at it.
use a_from_scratch_linux_use.Base.{
  ◌%◌, true, none, some, List, [], ◌∷◌, Bytes, str, length, ◌≡◌, refl,
}
use a_from_scratch_linux_use.Builder.Cpio.{
  Item, directory, symlink, regular, hex8, sort_items, insert, str_lt, pack_cpio_initramfs,
}
use a_from_scratch_linux_use.Builder.Cpio.Alignment.{append_bytes, pack_cpio_initramfs-aligned}

abbrev init : Item
init = record {
  rel_path = str "init";
  kind = regular true (some (str "#!/bin/sh", true));
  size = 9;
}

abbrev bin : Item
bin = record { rel_path = str "bin"; kind = directory; size = 4096 }

abbrev shell : Item
shell = record { rel_path = str "bin/sh"; kind = symlink (some (str "busybox")); size = 7 }

abbrev tree : List Item
tree = init ∷ shell ∷ bin ∷ []

tree_sorted : sort_items tree ≡ bin ∷ shell ∷ init ∷ []
unfolding sort_items insert str_lt
tree_sorted = refl

hex8_read : hex8 33261 ≡ str "000081ED"
unfolding hex8
hex8_read = refl

pack_cpio_initramfs-aligned_example :
    (archive : Bytes) × (pack_cpio_initramfs append_bytes 0 (some tree) [] ≡ (archive, none))
    × (length archive % 4 ≡ 0)
pack_cpio_initramfs-aligned_example =
    pack_cpio_initramfs-aligned 0 tree ((refl, refl), (tt, (tt, tt)))
