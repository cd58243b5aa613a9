-- ===== src/Tests/Replies.antt =====
-- Network: a request for data and what the client gets.
use mashroom.Common.{ℕ, ◌≡◌, refl, true, false, some, [], ◌∷◌}
use mashroom.Network.Reply.{
  no_error, data_request, DirectoryEntry, Env, mapped, map_failed, faults, send_file, send_sized,
  send_entry, reply_extract, reply,
}

abbrev zip : ℕ → DirectoryEntry
zip n = record { name = n; is_regular_file = true; is_zip = true }

-- Two archives in a directory of 4096 bytes, which cannot be mapped.
abbrev archives : Env ℕ
archives = record {
  received = no_error;
  msg_type = some data_request;
  found = [];
  set_by_request = no_error;
  creates_directories = true;
  add_in_path = no_error;
  execute = no_error;
  entries = zip 2 ∷ zip 1 ∷ [];
  file_size = λ n. some 4096;
  opens = λ n. true;
  mmap = λ n. map_failed;
  advises = λ n. false;
  sends = λ n. true;
}

-- A system on which a directory can be mapped: 4096 bytes are fewer than the first part reads.
abbrev mappable : Env ℕ
mappable = record archives { mmap = λ n. mapped; advises = λ n. true }

mappable_run : (reply mappable).ended ≡ faults
unfolding reply reply_extract send_entry send_sized send_file
mappable_run = refl

-- One archive, in a directory of 8912 bytes that can be mapped: as many parts are sent.
abbrev large : Env ℕ
large = record mappable { entries = zip 1 ∷ []; file_size = λ n. some 8912 }
