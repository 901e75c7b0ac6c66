-- ===== src/Tests/Platforms.antt =====
-- A small environment for concrete runs: the world is a counter, every file operation succeeds and the
-- lock is held. Files read as
-- missing; on `disk` the file is there.
use containers_storage.Prelude.{
  ℕ, List, false, str_eq, if◌then◌else◌, ◌+◌, true, none, some, [], ◌∷◌, ◌++◌, Str, codes,
}
use containers_storage.Prelude.GoMap
use containers_storage.Prelude.Exec.{ok}
use containers_storage.Env.{Env, missing, contents}
use containers_storage.TruncIndex.Patricia.{slice_trie}
use containers_storage.TruncIndex.Interface.{trunc_index}
use containers_storage.Containers.{Container, ContainerStore, Platform}
use containers_storage.Containers.Create.{ContainerOptions}

-- Eight, and thirty-two, equal bytes.
abbrev pub eight : ℕ → Str
eight b = b ∷ b ∷ b ∷ b ∷ b ∷ b ∷ b ∷ b ∷ []

abbrev pub buffer : ℕ → Str
buffer b = eight b ++ (eight b ++ (eight b ++ eight b))

abbrev pub demo_env : Env
demo_env = record {
  World = ℕ;
  locked = λ w. true;
  read_write = λ w. true;
  touch = λ w. w + 1;
  modified = λ w. (ok true, w);
  mkdir_all = λ path w. (ok tt, w);
  write_file = λ path content w. (ok tt, w);
  read_file = λ w path. missing;
  remove_all = λ path w. (ok tt, w);
  now = λ w. w;
  random = λ w. (some (buffer 170), w + 1);
  join = λ a b. a ++ b'/' ∷ b;
  dir_of = λ a. a;
  base64 = λ a. b'x' ∷ a;
  rune_size = λ a. 2;
  digest_of = λ a. a;
  valid_digest = λ a. true;
}

abbrev pub demo : Platform
demo = record {
  env = demo_env;
  index = trunc_index slice_trie;
  marshal = λ cs. some [];
  unmarshal = λ content. (true, []);
}

abbrev pub no_container : Container
no_container = record {
  id = [];
  names = [];
  image_id = [];
  layer_id = [];
  metadata = [];
  big_data_names = [];
  big_data_sizes = GoMap.empty;
  big_data_digests = GoMap.empty;
  created = 0;
  uid_map = [];
  gid_map = [];
  flags = GoMap.empty;
}

abbrev pub no_options : ContainerOptions
no_options = record {
  flags = some GoMap.empty;
  mount_opts = none;
  volatile = true;
  uid_map = [];
  gid_map = [];
}

abbrev pub empty_store : ContainerStore demo
empty_store = record {
  dir = codes "/c";
  heap = record { next = 0; cell = λ q. no_container };
  containers = [];
  idindex = demo.index.build [];
  byid = GoMap.empty;
  bylayer = GoMap.empty;
  byname = GoMap.empty;
  world = 0;
}

-- Every file reads as "two", which stands for the records `cs`; another text breaks off after one.
abbrev pub disk : List Container → Platform
disk cs = record demo {
  env = record demo_env { read_file = λ w path. contents (codes "two") };
  unmarshal = λ content.
      if str_eq content (codes "two")
      then (true, cs)
      else if str_eq content []
      then (true, [])
      else (false, no_container ∷ []);
}

abbrev pub empty_on : (cs : List Container) → ContainerStore (disk cs)
empty_on cs = record {
  dir = codes "/c";
  heap = record { next = 0; cell = λ q. no_container };
  containers = [];
  idindex = (disk cs).index.build [];
  byid = GoMap.empty;
  bylayer = GoMap.empty;
  byname = GoMap.empty;
  world = 0;
}
