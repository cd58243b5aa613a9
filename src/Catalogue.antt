-- ===== src/Catalogue.antt =====
-- The catalogue of indexed files: DataStruct<TIME_SERIES, GRIB_v1> of
-- include/data/datastruct/grib1.h, path::Storage of include/definitions/path_process.h,
-- CommonDataProperties of include/data/common_data_properties.h and GribMsgDataInfo of
-- include/data/msg.h. A shared pointer to a key is the key: the maps compare what it points to. A
-- view of a path is the path, which is right as long as the path is there: `add_data` of a file keys the
-- indices by views of a local path, so that what is modelled is the state at the end of the call, before
-- that path is destroyed, for indices whose views are valid. The kinds of grids and of sequences of times are any types with an
-- equality.
pub mod Keys
pub mod Rounds
pub mod Indexing
pub mod Merging
pub mod Closed
use Prim.Native.String.{String}
use text.Mathlib.Text.{◌==◌ as str_eq}
use mashroom.Common.{
  ℕ, ◌==◌, ◌&&◌, Bool, true, false, Option, none, some, List, [], ◌∷◌, ◌++◌, if◌then◌else◌,
}
use mashroom.Common.Table.{Equality, lookup, update, put_all, has_key}
use mashroom.Grib.TimeForecast.{TimeForecast}
use mashroom.Grib.TimeRange.{code}
use mashroom.Grib.Level.{Level}
use mashroom.Grib.Message.{Code, MsgInfo, none_err}

pub data PathType : Type 0 where
  directory file host : PathType

-- A host keeps a port, and each kind the time of its last check, but for a path without any of this.
pub data Additional : Type 0 where
  monostate : Additional
  host_check : ℕ → ℕ → Additional
  directory_check file_check : ℕ → Additional

pub record StoredPath : Type 0 where
  pub name : String
  pub kind : PathType
  pub add : Additional

-- `Storage::file`
abbrev pub file_path : String → ℕ → StoredPath
file_path name last_check = record { name = name; kind = file; add = file_check last_check }

abbrev pub same_kind : PathType → PathType → Bool
same_kind directory directory = true
same_kind file file = true
same_kind host host = true
same_kind k l = false

-- `std::equal_to` of two paths, which the maps use.
unfoldable pub same_path : StoredPath → StoredPath → Bool
same_path a b = str_eq a.name b.name && same_kind a.kind b.kind

pub record CommonDataProperties : Type 0 where
  pub center : Option ℕ
  pub table_version : Option ℕ
  pub parameter : Option ℕ

abbrev pub same_option : Option ℕ → Option ℕ → Bool
same_option none none = true
same_option (some a) (some b) = a == b
same_option a b = false

unfoldable pub same_common : CommonDataProperties → CommonDataProperties → Bool
same_common a b =
    same_option a.center b.center
    && same_option a.table_version b.table_version
    && same_option a.parameter b.parameter

-- `TimeForecast::operator==`
unfoldable pub same_forecast : TimeForecast → TimeForecast → Bool
same_forecast a b =
    (a.n == b.n)
    && (a.n_missed == b.n_missed)
    && (a.p1 == b.p1)
    && (a.p2 == b.p2)
    && (a.tf == b.tf)
    && (code a.tri == code b.tri)

-- `Level::operator==`
unfoldable pub same_level : Level → Level → Bool
same_level a b =
    (a.octet_11 == b.octet_11) && (a.octet_12 == b.octet_12) && (a.level_type == b.level_type)

abbrev pub paths : Equality StoredPath
paths = record { same = same_path }

abbrev pub commons : Equality CommonDataProperties
commons = record { same = same_common }

abbrev pub forecasts : Equality TimeForecast
forecasts = record { same = same_forecast }

abbrev pub levels : Equality Level
levels = record { same = same_level }

-- The positions of messages, for each file.
abbrev pub Files : Type 0
Files = List (StoredPath × List ℕ)

abbrev pub Index : Type 0 → Type 0
Index K = List (K × Files)

-- What is kept of a message; its time and its size are left out. `err` is `none` where the
-- constructor of the message left it as it was.
pub record GribMsgDataInfo (G : Type 0) : Type 0 where
  pub msg : MsgInfo
  pub grid_data : G

pub record DataStruct (G T : Type 0) : Type 0 where
  pub positions : Files
  pub by_common : Index CommonDataProperties
  pub by_date : Index T
  pub by_grid : Index G
  pub by_forecast : Index TimeForecast
  pub by_level : Index Level

unfoldable pub empty : {G T : Type 0} → DataStruct G T
empty = record {
  positions = [];
  by_common = [];
  by_date = [];
  by_grid = [];
  by_forecast = [];
  by_level = [];
}

-- `push_back` on an entry, which is empty at first.
abbrev pub push : ℕ → Option (List ℕ) → List ℕ
push p none = p ∷ []
push p (some ps) = ps ++ p ∷ []

-- The two branches of `add_data_lambda`.
abbrev pub push_in : StoredPath → ℕ → Option Files → Files
push_in path p none = (path, p ∷ []) ∷ []
push_in path p (some files) = update paths path (push p) files

unfoldable pub add_position : {K : Type 0} → Equality K → K → StoredPath → ℕ → Index K → Index K
add_position E key path p m = update E key (push_in path p) m

abbrev pub common_of : MsgInfo → CommonDataProperties
common_of m = record {
  center = some m.centre;
  table_version = some m.version;
  parameter = some m.parameter;
}

abbrev pub is_none_err : Code → Bool
is_none_err none_err = true
is_none_err c = false

-- `msg.err_ == NONE_ERR`; `left` is what the memory of a message's `err_` held, by its position.
unfoldable pub accepted : {G : Type 0} → (ℕ → Code) → GribMsgDataInfo G → Bool
accepted left m = is_none_err (elim m.msg.err [ none ↦ left m.msg.position | some c ↦ c ])

module _ {G T : Type 0} (grids : Equality G) (left : ℕ → Code) where
  -- One round of the loop.
  unfoldable pub add_message : StoredPath → GribMsgDataInfo G → DataStruct G T → DataStruct G T
  add_message path m d =
      let p = m.msg.position in
      if accepted left m
      then record d {
        positions = update paths path (push p) d.positions;
        by_common = add_position commons (common_of m.msg) path p d.by_common;
        by_forecast = add_position forecasts m.msg.time path p d.by_forecast;
        by_grid = add_position grids m.grid_data path p d.by_grid;
        by_level = add_position levels m.msg.height path p d.by_level;
      }
      else d

  unfoldable pub add_messages :
      StoredPath → List (GribMsgDataInfo G) → DataStruct G T → DataStruct G T
  add_messages path [] d = d
  add_messages path (m ∷ ms) d = add_messages path ms (add_message path m d)

  -- `add_data` of the messages of a file, at the time `now`, up to the end of its body: the views of
  -- `path` in the indices dangle as soon as it has returned.
  unfoldable pub add_data : String → ℕ → List (GribMsgDataInfo G) → DataStruct G T → DataStruct G T
  add_data name now ms d =
      let path = file_path name now in
      add_messages path ms (record d { positions = update paths path (λ old. []) d.positions })

-- `this_data[key]`, which is empty at first.
abbrev pub or_empty : Option Files → Files
or_empty none = []
or_empty (some files) = files

-- `path_pos_tmp[path] = positions` for the files of each key.
unfoldable pub put_index : {K : Type 0} → Equality K → Index K → Index K → Index K
put_index E [] m = m
put_index E ((k, files) ∷ other) m =
    put_index E other (update E k (λ old. put_all paths files (or_empty old)) m)

-- Whether `positions_` has every path of an index.
unfoldable pub has_files : Files → Files → Bool
has_files positions [] = true
has_files positions ((path, ps) ∷ files) =
    let rest = has_files positions files in has_key paths path positions && rest

unfoldable pub has_index : {K : Type 0} → Files → Index K → Bool
has_index positions [] = true
has_index positions ((k, files) ∷ m) =
    let rest = has_index positions m in has_files positions files && rest

-- Whether `positions_` has every path of the indices, as `positions_.find(path)->first` needs it.
unfoldable pub has_paths : {G T : Type 0} → Files → DataStruct G T → Bool
has_paths positions d =
    has_index positions d.by_common
    && has_index positions d.by_date
    && has_index positions d.by_grid
    && has_index positions d.by_forecast
    && has_index positions d.by_level

module _ {G T : Type 0} (grids : Equality G) (times : Equality T) where
  -- The assignments of `add_data` of another catalogue.
  unfoldable pub merged : DataStruct G T → DataStruct G T → DataStruct G T
  merged other d = record {
    positions = put_all paths other.positions d.positions;
    by_common = put_index commons other.by_common d.by_common;
    by_date = put_index times other.by_date d.by_date;
    by_grid = put_index grids other.by_grid d.by_grid;
    by_forecast = put_index forecasts other.by_forecast d.by_forecast;
    by_level = put_index levels other.by_level d.by_level;
  }

  -- `add_data` of another catalogue; `none` is the read of a path that is not there.
  unfoldable pub merge : DataStruct G T → DataStruct G T → Option (DataStruct G T)
  merge other d =
      if has_paths (put_all paths other.positions d.positions) other
      then some (merged other d)
      else none
