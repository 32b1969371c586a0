-- ===== src/Files/Tests.antt =====
-- A run of the choice of a download path.
use multi_user_chat.Base.{
  ◌≡◌, refl, Bool, true, false, some, ◌∷◌, ◌++◌, Bytes, bytes, contains, str_eq, decimal, ◌<◌,
}
use multi_user_chat.Files.{
  split_last, base_filename, sanitize_loop, sanitize_component, split_extension, candidate_name,
  find_free, build_unique_download_path,
}
use multi_user_chat.Files.Download.{build_unique_download_path_lem}

-- One file is there already.
abbrev exists_at : Bytes → Bool
exists_at path = str_eq path (bytes "d/ann_a.txt")

abbrev allocates : Bytes → Bool
allocates path = true

second_path :
    build_unique_download_path exists_at allocates true
      (bytes "d")
      (bytes "ann")
      (bytes "/tmp/a.txt")
      100
    ≡ some (bytes "d/ann_a_1.txt")
unfolding split_last base_filename sanitize_loop sanitize_component split_extension candidate_name
    find_free build_unique_download_path str_eq decimal
second_path = refl

build_unique_download_path_lem_example :
    (name : Bytes) × (bytes "d/ann_a_1.txt" ≡ bytes "d" ++ (0x2f ∷ name))
    × (contains 0x2f name ≡ false)
    × (exists_at (bytes "d/ann_a_1.txt") ≡ false)
    × (13 < 100)
build_unique_download_path_lem_example =
    build_unique_download_path_lem exists_at allocates true (bytes "d") (bytes "ann")
      (bytes "/tmp/a.txt") 100 (bytes "d/ann_a_1.txt") second_path
