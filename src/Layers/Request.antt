-- ===== src/Layers/Request.antt =====
-- What Put of layers.go is asked for, and the record of a layer that it makes.
use containers_storage.Prelude.{ℕ, Bool, false, Option, none, some, List, [], ◌∷◌, Str}
use containers_storage.Prelude.GoMap
use containers_storage.Prelude.GoMap.{GoMap}
use containers_storage.Prelude.Int.{pos}
use containers_storage.IdTools.{IdMap, IdMappings}
use containers_storage.Names.{dedupe_names}
use containers_storage.Containers.{Value}
use containers_storage.Layers.{CreateOpts, Layer}
use containers_storage.Layers.Diff.{LayerOptions, mappings_of}

-- What a caller asks of Put. `parent` is the layer that parentLayer points to, in this store or in
-- another; `diff` is what the reader yields.
pub record Request : Type 0 where
  pub names : List Str
  pub parent : Option Layer
  pub mount_label : Str
  pub storage_opt : GoMap Str
  pub options : LayerOptions
  pub writeable : Bool
  pub flags : GoMap Value
  pub diff : Option Str

abbrev pub no_mappings : IdMappings
no_mappings = record { uids = none; gids = none }

abbrev pub parent_id : Option Layer → Str
parent_id none = []
parent_id (some l) = l.id

abbrev pub parent_mappings : Option Layer → IdMappings
parent_mappings none = no_mappings
parent_mappings (some l) = mappings_of l

-- copyIDMap, which makes an empty slice a nil one
unfoldable pub copy_id_map : Option (List IdMap) → Option (List IdMap)
copy_id_map none = none
copy_id_map (some []) = none
copy_id_map (some (m ∷ ms)) = some (m ∷ ms)

-- for flag, value := range flags { layer.Flags[flag] = value }
unfoldable pub copy_flags : GoMap Value → GoMap Value → GoMap Value
copy_flags [] m = m
copy_flags ((flag, value) ∷ flags) m = copy_flags flags (GoMap.put m flag value)

unfoldable pub new_layer : Str → Request → ℕ → Layer
unfolding dedupe_names copy_flags copy_id_map
new_layer id q now = record {
  id = id;
  names = dedupe_names q.names;
  parent = parent_id q.parent;
  metadata = [];
  mount_label = q.mount_label;
  mount_point = [];
  mount_count = pos 0;
  created = now;
  compressed_digest = [];
  compressed_size = pos 0;
  uncompressed_digest = [];
  uncompressed_size = pos 0;
  compression_type = 0;
  uids = [];
  gids = [];
  flags = copy_flags q.flags GoMap.empty;
  uid_map = copy_id_map q.options.uid_map;
  gid_map = copy_id_map q.options.gid_map;
  read_only = false;
  big_data_names = [];
}

abbrev pub asked_mappings : Request → IdMappings
asked_mappings q = record { uids = q.options.uid_map; gids = q.options.gid_map }

abbrev pub create_opts : Request → CreateOpts
create_opts q = record {
  mount_label = q.mount_label;
  storage_opt = q.storage_opt;
  id_mappings = asked_mappings q;
}
