-- ===== src/Network/Reply/Directory.antt =====
-- What a client gets from a server on which a directory cannot be mapped.
use mashroom.Common.{ℕ, ◌≡◌, true, false, some, [], ◌∷◌}
use mashroom.Network.Reply.{
  DirectoryEntry, Env, Replied, returns, map_failed, error, invalid_argument, ready, is_none,
  data_reply_extract, data_request,
}

module _ {Block : Type 0} where
  -- mmap fails for a directory (ENODEV), and madvise fails at MAP_FAILED, which is not the start of a
  -- page (EINVAL).
  pub record IsUnmappable (env : Env Block) : Type 0 where
    pub unmapped : (n : ℕ) → env.mmap n ≡ map_failed
    pub unadvised : (n : ℕ) → env.mmap n ≡ map_failed → env.advises n ≡ false

  -- Nothing on the way to the loop over the entries fails.
  pub record IsExecuted (env : Env Block) : Type 0 where
    pub received : is_none env.received ≡ true
    pub requested : env.msg_type ≡ some data_request
    pub set : is_none env.set_by_request ≡ true
    pub created : env.creates_directories ≡ true
    pub added : is_none env.add_in_path ≡ true
    pub executed : is_none env.execute ≡ true

  module _ (env : Env Block) (unmappable : IsUnmappable env) where
    abbrev refusal : ℕ → DirectoryEntry → Replied Block
    refusal size e = record {
      log = data_reply_extract size e.name ∷ error invalid_argument ready ∷ [];
      has_directory = true;
      ended = returns;
    }
