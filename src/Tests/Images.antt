-- ===== src/Tests/Images.antt =====
-- The image store at concrete inputs.
use containers_storage.Names.{dedupe_names}
use containers_storage.Prelude.{is_prefix}
use containers_storage.Names.{dedupe_names}
use containers_storage.Names.{dedupe_names}
use containers_storage.Prelude.{
  ◌≡◌, refl, true, false, not, ◌&&◌, ◌||◌, some, [], ◌∷◌, Str, codes, str_eq, elem, distinct, holds,
  is_some, ◌==◌,
}
use containers_storage.Prelude.GoMap
use containers_storage.Prelude.GoMap.{GoMap}
use containers_storage.Env.{Env}
use containers_storage.TruncIndex.Patricia.{slice_trie}
use containers_storage.TruncIndex.Interface.{trunc_index}
use containers_storage.Images.{Image, ImageStore, ImagePlatform, save, lookup}
use containers_storage.Images.Digests.{recompute_digests, first_of}
use containers_storage.Images.Create.{new_image, create_image}
use containers_storage.Images.Delete.{delete_image}
use containers_storage.Images.BigData.{set_image_big_data}
use containers_storage.Images.Recompute.{
  of_manifest, manifests_valid, recompute_succeeds, recomputed,
}
use containers_storage.Images.Filing.{leads}
use containers_storage.Images.Filed.{
  Filed, Kept, create_image-Filed, set_image_big_data-Kept, leads-delete_image,
}
use containers_storage.Tests.Platforms.{demo_env}

abbrev platform_on : Env → ImagePlatform
platform_on env = record {
  env = env;
  index = trunc_index slice_trie;
  marshal = λ is. some [];
  unmarshal = λ content. (true, []);
  equal_fold = str_eq;
}

abbrev writable : ImagePlatform
writable = platform_on demo_env

abbrev for_reading : ImagePlatform
for_reading = platform_on (record demo_env { read_write = λ w. false })

-- A lock that is not held: Save fails.
abbrev unlocked : ImagePlatform
unlocked = platform_on (record demo_env { locked = λ w. false })

abbrev some_image : Image
some_image = new_image (codes "a1") (codes "web" ∷ []) (codes "top") [] 7 (codes "d1")

abbrev no_images : (p : ImagePlatform) → p.env.World → ImageStore p
no_images p w = record {
  dir = codes "/i";
  heap = record { next = 0; cell = λ q. some_image };
  images = [];
  idindex = p.index.build [];
  byid = GoMap.empty;
  byname = GoMap.empty;
  bydigest = GoMap.empty;
  world = w;
}

no_images-Filed : Filed (no_images writable 0)
unfolding GoMap.get holds
no_images-Filed = record { filed = λ d r. refl; allocated = λ r h. cc }

abbrev one_image : ImageStore writable
one_image =
    (create_image 1 1 (codes "a1") (codes "web" ∷ []) (codes "top") [] 7 (codes "d1")
      (no_images writable 0)).1

create_image-Filed_example : Filed one_image
create_image-Filed_example =
    create_image-Filed 1 1 (codes "a1") (codes "web" ∷ []) (codes "top") [] 7 (codes "d1")
      (no_images writable 0) no_images-Filed

set_image_big_data-Kept_example : Kept (
    set_image_big_data
      (λ m. m)
      (codes "web")
      (codes "manifest")
      (codes "{}")
      (some (λ content. some (codes "d2")))
      one_image)
unfolding lookup GoMap.get create_image str_eq dedupe_names save GoMap.put holds
set_image_big_data-Kept_example =
    set_image_big_data-Kept (λ m. m) (codes "web") (codes "manifest") (codes "{}")
      (some (λ content. some (codes "d2"))) one_image 0 create_image-Filed_example refl refl

leads-delete_image_example :
    leads (delete_image (codes "web") one_image).1.bydigest (codes "d1") 0
    ≡ leads one_image.bydigest (codes "d1") 0 && not (0 == 0)
unfolding lookup GoMap.get create_image str_eq dedupe_names save GoMap.put
leads-delete_image_example =
    leads-delete_image (codes "web") one_image 0 create_image-Filed_example refl refl (codes "d1") 0

-- An image with two manifests that have the same digest.
abbrev twice : Image
twice = record some_image {
  big_data_digests =
      (codes "manifest", codes "d2")
      ∷ (codes "manifest-list", codes "d2")
      ∷ (codes "other", codes "d3")
      ∷ [];
}

abbrev twice_again : Image
twice_again = record twice { digests = codes "d1" ∷ codes "d2" ∷ [] }

recomputed_example :
    ((d : Str)
      → elem d twice_again.digests
        ≡ (not (str_eq twice.digest []) && str_eq twice.digest d)
          || of_manifest d twice.big_data_digests)
    × (distinct twice_again.digests ≡ true)
    × ((d : Str) → elem d twice_again.digests ≡ true → demo_env.valid_digest d ≡ true)
    × (twice_again.digest ≡ first_of twice.digest twice_again.digests)
unfolding recompute_digests str_eq new_image is_prefix elem
recomputed_example = recomputed demo_env (λ m. m) twice twice_again refl

recompute_succeeds_example :
    is_some (recompute_digests demo_env (λ m. m) twice)
    ≡ (str_eq twice.digest [] || demo_env.valid_digest twice.digest)
      && manifests_valid demo_env twice.big_data_digests
recompute_succeeds_example = recompute_succeeds demo_env (λ m. m) twice
