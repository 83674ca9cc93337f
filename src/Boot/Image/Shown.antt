-- ===== src/Boot/Image/Shown.antt =====
-- The listing of kernel/kernel.c on a disk that kernel/filesystem/initrd.c has made of an image.
use maken_os.Base.{
  ℕ, zero, suc, ◌+◌, ◌*◌, ◌^◌, ◌≤◌, ◌<◌, ◌≡◌, ◌≢◌, refl, ◌∙◌, ap, arith, ◌⊎◌, ltb, false, bit_and,
  Option, some, List, [], ◌∷◌, ◌++◌, Memory, IsBytes,
}
use maken_os.Klib.Print.{bytes_at}
use maken_os.Filesystem.File.{fs_directory}
use maken_os.Filesystem.Initrd.{Initrd, directory_node, initrd_calls, initialise_initrd}
use maken_os.Filesystem.Initrd.Mount.{IsImage, IsMounted, name_size}
use maken_os.Memory.Pmm.{MemmapEntry, block_size, k_malloc}
use maken_os.Filesystem.Initrd.Initialise.{SameBeyond, initialise_initrd-IsMounted}
use maken_os.Boot.{Text, literal, bytes, list_files}
use maken_os.Boot.Listing.{
  IsClear, IsDisk, IsText, node_texts, entry_texts, disk_texts, list_files-disk_texts,
}
use maken_os.Boot.Image.{
  name_of, text_start, text_length, IsTextFile, node_of, entry-name_of, HasName-name_of, node_at,
  loaded-IsText, loaded-contents_at,
}

-- What the listing is to show of the image: entry `i`, and `left` entries from there.
unfoldable pub file_texts : ℕ → Memory → ℕ → List Text
file_texts location m zero = literal "\n\t(directory)\n" 14 ∷ []
file_texts location m (suc zero) = literal "\n\t(directory)\n" 14 ∷ []
file_texts location m (suc (suc k)) =
    literal "\n\t contents: \"" 14
    ∷ bytes (bytes_at (text_length location m k) (text_start location m k) m)
    ∷ literal "\"\n" 2
    ∷ []

unfoldable pub image_entry : ℕ → (ℕ → ℕ) → Memory → ℕ → List Text
image_entry location len m i =
    literal "Found file " 11 ∷ bytes (name_of location len m i) ∷ file_texts location m i

unfoldable pub image_texts : ℕ → ℕ → ℕ → (ℕ → ℕ) → Memory → List Text
image_texts zero i location len m = []
image_texts (suc left) i location len m =
    image_entry location len m i ++ image_texts left (i + 1) location len m

module _ (memmap : MemmapEntry) (location n buf : ℕ) (len : ℕ → ℕ) (m : Memory) (disk : Initrd)
    (m' : Memory) (image : IsImage location n len m) (mounted : IsMounted location n len m disk m')
    (beyond : SameBeyond memmap location n m m') (few : n + 2 < 2 ^ 32)
    (different : (i j : ℕ)
      → i < j
      → j < n + 2
      → name_of location len m j ≢ name_of location len m i)
    (text : (k : ℕ) → k < n → IsTextFile memmap location n buf m k) where
  node-texts :
      (i : ℕ) → i < n + 2 → node_texts disk i (node_of location m i) m' ≡ file_texts location m i
  unfolding node_texts file_texts node_of
  node-texts zero within = refl
  node-texts (suc zero) within = refl
  node-texts (suc (suc k)) within =
      let high : ltb (suc (suc k)) 2 ≡ false = ground arith in
      rw high (
        ap (λ (cs : List ℕ). literal "\n\t contents: \"" 14 ∷ bytes cs ∷ literal "\"\n" 2 ∷ [])
          (loaded-contents_at location n len m disk m' mounted k (omega arith) few memmap buf beyond
            (text k (omega arith))))

  disk-image_texts :
      (left i : ℕ)
      → i + left ≡ n + 2
      → disk_texts left i disk (name_size len) (node_of location m) m'
        ≡ image_texts left i location len m
  unfolding disk_texts image_texts entry_texts image_entry
  disk-image_texts zero i e = refl
  disk-image_texts (suc left) i e =
      rw
        (
          entry-name_of location n len m disk m' mounted i (omega arith),
          node-texts i (omega arith),
          disk-image_texts left (i + 1) (omega arith),
        )
        refl

  covered : (f : ℕ) → 256 ≤ f → (i : ℕ) → i < n + 2 → name_size len i < f
  unfolding name_size
  covered f enough zero within = omega arith
  covered f enough (suc zero) within = omega arith
  covered f enough (suc (suc k)) within = omega (arith, image.short k (omega arith))

  directories : (i : ℕ) → i < 2 → bit_and (node_of location m i).flags 0x7 ≡ fs_directory
  unfolding node_of directory_node
  directories zero lt = refl
  directories (suc zero) lt = refl
  directories (suc (suc i)) lt = absurd (omega arith)

  texts : (i : ℕ) → 2 ≤ i → i < n + 2 → IsText disk buf m' (node_of location m i)
  unfolding node_of
  texts zero low within = absurd (omega arith)
  texts (suc zero) low within = absurd (omega arith)
  texts (suc (suc k)) low within =
      loaded-IsText location n len m disk m' mounted k (omega arith) few memmap buf beyond
        (text k (omega arith))

  mounted-IsDisk : (f : ℕ) → 256 ≤ f → IsDisk f disk (name_size len) (node_of location m) buf m'
  mounted-IsDisk f enough = record {
    named = λ i lt. mounted.named i (omega (arith, mounted.count));
    covered = λ i lt. covered f enough i (omega (arith, mounted.count));
    different = λ i j lt within same. different i j lt (omega (arith, mounted.count)) (
        HasName-name_of location n len m disk m' mounted i j (omega (arith, mounted.count))
          (omega (arith, mounted.count)) same);
    nodes = λ i lt. node_at location n len m disk m' mounted i (omega (arith, mounted.count));
    directories = directories;
    texts = λ i low lt. texts i low (omega (arith, mounted.count));
  }

  list_files-mounted :
      (f : ℕ)
      → 256 ≤ f
      → IsClear buf m'
      → list_files (initrd_calls f disk) f buf (n + 3) (directory_node 0) m'
        ≡ some (image_texts (n + 2) 0 location len m, m')
  list_files-mounted f enough clear =
      let rounds : n + 3 ≡ suc disk.nroot_nodes = omega (arith, mounted.count) in
      ap (λ (t : ℕ). list_files (initrd_calls f disk) f buf t (directory_node 0) m') rounds
      ∙ list_files-disk_texts f disk (name_size len) (node_of location m) buf m' mounted.small
          (mounted-IsDisk f enough) clear enough
      ∙ ap (λ (t : ℕ). some (disk_texts t 0 disk (name_size len) (node_of location m) m', m'))
          mounted.count
      ∙ ap (λ (ts : List Text). some (ts, m')) (disk-image_texts (n + 2) 0 (omega arith))

-- What a boot relies on: an image of terminated names of less than 64 bytes, all different, and of
-- texts; an entry of the allocator with room for the directory; and a clear buffer, all apart.
pub record IsBootable (halvings : ℕ) (memmap : MemmapEntry) (location n buf : ℕ) (len : ℕ → ℕ)
    (m : Memory) : Type 0 where
  pub small : IsBytes m
  pub image : IsImage location n len m
  pub few : n + 2 < 2 ^ 32
  pub covered_names : (k : ℕ) → k < n → len k < suc halvings
  pub room : 132 * (n + 2) + 1 ≤ memmap.length
  pub fits : memmap.length < 2 ^ 60
  pub covered : memmap.length ≤ block_size * 2 ^ halvings
  pub apart : (location + 8 + 88 * n ≤ memmap.base) ⊎ (memmap.base + 8 * memmap.length ≤ location)
  pub different :
      (i j : ℕ) → i < j → j < n + 2 → name_of location len m j ≢ name_of location len m i
  pub texts : (k : ℕ) → k < n → IsTextFile memmap location n buf m k
  pub clear : IsClear buf m
  pub buffer_beyond : (buf + 256 ≤ memmap.base) ⊎ (memmap.base + 8 * memmap.length ≤ buf)
  pub buffer_apart : (buf + 256 ≤ location) ⊎ (location + 8 + 88 * n ≤ buf)

-- On an image of terminated names of less than 64 bytes, all different, and of texts of less than 256
-- bytes without a zero, apart from an entry of the allocator that has room for the directory and
-- from a clear buffer, with fuel that covers the names, the halvings of the entry and 256 bytes, and
-- where the second allocation gives a block: `initialise_initrd` ends, and the loop of `_start`
-- behind it ends too and shows the image, "/" and "dev" as directories, then the name and the text of
-- each file, in the order of the headers.
pub initialise_initrd-image_texts :
    (halvings : ℕ) (memmap : MemmapEntry) (location n buf fuel : ℕ) (len : ℕ → ℕ) (r : Option ℕ)
    (p : ℕ) (m m1 m2 : Memory)
    → IsBootable halvings memmap location n buf len m
    → k_malloc (suc halvings) memmap (88 * (n + 2)) m ≡ some (r, m1)
    → k_malloc (suc halvings) memmap (132 * (n + 2)) m1 ≡ some (some p, m2)
    → 256 ≤ fuel
    → (disk : Initrd) × (m' : Memory) × (initialise_initrd (suc halvings) memmap location m
        ≡ some (disk, m'))
      × (list_files (initrd_calls fuel disk) fuel buf (n + 3) (directory_node 0) m'
          ≡ some (image_texts (n + 2) 0 location len m, m'))
initialise_initrd-image_texts halvings memmap location n buf fuel len r p m m1 m2 boot first second
      enough =
    let (disk, m', runs, at, mounted, beyond) =
      initialise_initrd-IsMounted halvings memmap location n len r p m m1 m2 boot.small boot.image
        boot.covered_names boot.room boot.fits boot.covered boot.apart first second in
    let clear : IsClear buf m' = λ b lo hi.
      beyond b (omega (arith, boot.buffer_beyond)) (omega (arith, boot.buffer_apart))
      ∙ boot.clear b lo hi in
    (
      disk,
      m',
      runs,
      list_files-mounted memmap location n buf len m disk m' boot.image mounted beyond boot.few
          boot.different boot.texts fuel enough clear,
    )
