-- ===== src/Network/Reply.antt =====
-- How the server answers a request: `reply` and `send_error` of
-- src/network/server/connection_process.cpp. What the system, the catalogue and the extraction
-- answer is in `Env`. Each attempt to send is kept in a log, and the answer to it is by its number.
pub mod Directory
pub mod Parts
use mashroom.Common.{
  ℕ, zero, suc, ◌+◌, not, ◌&&◌, Bool, true, false, Option, none, some, List, [], ◌∷◌, ◌++◌, map,
  length, ltb, if◌then◌else◌,
}

pub data Status : Type 0 where
  ready suspended inactive : Status

-- The codes that `reply` names; all others it only tests against NONE.
pub data ErrorCode : Type 0 where
  no_error invalid_argument internal_error undefined_value : ErrorCode
  other_code : ℕ → ErrorCode

pub data ClientMsgType : Type 0 where
  data_request server_status index index_ref transaction : ClientMsgType

-- The bytes of a file that a part carries are where they start in the mapping and how many they are.
pub record Part : Type 0 where
  pub offset : ℕ
  pub start : ℕ
  pub size : ℕ

-- A message that `reply` sends, without the status READY and the hash of a file; `Block` is what the
-- catalogue finds for one parameter.
pub data ServerMsg (Block : Type 0) : Type 0 where
  error : ErrorCode → Status → ServerMsg Block
  data_reply_index_ref : List Block → ServerMsg Block
  data_reply_extract : ℕ → ℕ → ServerMsg Block
  data_reply_filepart : Part → ServerMsg Block

-- An entry of the temporary directory, with its name.
pub record DirectoryEntry : Type 0 where
  pub name : ℕ
  pub is_regular_file : Bool
  pub is_zip : Bool

-- What mmap returns: a null pointer, MAP_FAILED, or where as many bytes are mapped as were asked for.
pub data Mapping : Type 0 where
  null_pointer map_failed mapped : Mapping

-- `file_size`, `opens`, `mmap` and `advises` are about the temporary directory, which the calls name in
-- place of its entry, at the time after so many attempts to send; `sends` is about an attempt.
pub record Env (Block : Type 0) : Type 0 where
  pub received : ErrorCode
  pub msg_type : Option ClientMsgType
  pub found : List (Option Block)
  pub set_by_request : ErrorCode
  pub creates_directories : Bool
  pub add_in_path : ErrorCode
  pub execute : ErrorCode
  pub entries : List DirectoryEntry
  pub file_size : ℕ → Option ℕ  -- none is an exception
  pub opens : ℕ → Bool
  pub mmap : ℕ → Mapping
  pub advises : ℕ → Bool
  pub sends : ℕ → Bool

-- `faults` is a read outside of what is mapped.
pub data ReplyEnd : Type 0 where
  returns throws faults : ReplyEnd

-- The attempts to send, whether the temporary directory is there, and how `reply` ended.
pub record Replied (Block : Type 0) : Type 0 where
  pub log : List (ServerMsg Block)
  pub has_directory : Bool
  pub ended : ReplyEnd

-- What is done behind a header: an error is sent, or the parts of a file, or it faults before the first.
pub data SentFile (Block : Type 0) : Type 0 where
  refused : SentFile Block
  sent_parts : List (ServerMsg Block) → SentFile Block
  outside : SentFile Block

-- What a round of the loop over the entries leaves: the reply ends, or the next entry follows.
pub data Round (Block : Type 0) : Type 0 where
  stops : Replied Block → Round Block
  goes_on : List (ServerMsg Block) → Bool → Round Block

abbrev pub is_none : ErrorCode → Bool
is_none no_error = true
is_none e = false

abbrev pub segment_size : ℕ
segment_size = 8912

module _ {Block : Type 0} (env : Env Block) where
  -- `send_error`: the code and the status that are asked for are not those of the message.
  unfoldable pub send_error : ErrorCode → Status → ServerMsg Block
  send_error err status = error invalid_argument ready

  abbrev pub stop_with : Bool → List (ServerMsg Block) → Replied Block
  stop_with has log = record { log = log; has_directory = has; ended = returns }

  -- The blocks of `find_data`, for the parameters in order.
  unfoldable pub add_blocks : List (Option Block) → List Block
  add_blocks [] = []
  add_blocks (none ∷ fs) = add_blocks fs
  add_blocks (some b ∷ fs) = b ∷ add_blocks fs

  -- The loop over the offsets: the segment starts at the start of the mapping in every round.
  unfoldable pub file_parts : ℕ → ℕ → List (ServerMsg Block)
  file_parts zero offset = []
  file_parts (suc left) offset =
      data_reply_filepart (record { offset = offset; start = 0; size = segment_size })
      ∷ file_parts left (suc offset)

  -- The loop over the offsets, when the tests have let the pointer through. Its first round reads 8912
  -- bytes from where the mapping starts.
  abbrev pub read_parts : Mapping → ℕ → SentFile Block
  read_parts mapped size =
      if ltb 0 size && ltb size segment_size then outside else sent_parts (file_parts size 0)
  read_parts p size = if ltb 0 size then outside else sent_parts []

  abbrev pub is_null : Mapping → Bool
  is_null null_pointer = true
  is_null p = false

  -- What is done behind the header of an entry, after `n` attempts to send.
  unfoldable pub send_file : ℕ → ℕ → SentFile Block
  send_file n size =
      if not (env.opens n)
      then refused
      else if is_null (env.mmap n)
      then refused
      else if not (env.advises n)
      then refused
      else read_parts (env.mmap n) size

  -- The round behind the header: the directory is removed behind a file that is sent.
  abbrev pub behind_header : SentFile Block → List (ServerMsg Block) → Bool → Round Block
  behind_header (sent_parts ms) log has = goes_on (log ++ ms) false
  behind_header refused log has =
      stops (stop_with has (log ++ send_error internal_error ready ∷ []))
  behind_header outside log has = stops (record { log = log; has_directory = has; ended = faults })

  -- The round for a file of the given size, `none` being the exception of `file_size`.
  unfoldable pub send_sized :
      DirectoryEntry → Option ℕ → List (ServerMsg Block) → Bool → Round Block
  send_sized e none log has = stops (record { log = log; has_directory = has; ended = throws })
  send_sized e (some size) log has =
      let headed = log ++ data_reply_extract size e.name ∷ [] in
      if env.sends (length log)
      then behind_header (send_file (length headed) size) headed has
      else goes_on headed has

  -- One round of the loop over the entries, after the attempts in the log.
  unfoldable pub send_entry : DirectoryEntry → List (ServerMsg Block) → Bool → Round Block
  send_entry e log has =
      if not (e.is_regular_file && e.is_zip)
      then stops (stop_with has (log ++ send_error internal_error ready ∷ []))
      else send_sized e (env.file_size (length log)) log has

  abbrev pub after_round :
      (List (ServerMsg Block) → Bool → Replied Block) → Round Block → Replied Block
  after_round others (stops replied) = replied
  after_round others (goes_on log has) = others log has

  -- The loop over the entries.
  abbrev pub send_entries : List DirectoryEntry → List (ServerMsg Block) → Bool → Replied Block
  send_entries [] log has = stop_with has log
  send_entries (e ∷ es) log has = after_round (send_entries es) (send_entry e log has)

  unfoldable pub reply_extract : Replied Block
  reply_extract =
      if not (is_none env.set_by_request)
      then stop_with false (send_error invalid_argument ready ∷ [])
      else if not env.creates_directories
      then stop_with false (send_error internal_error ready ∷ [])
      else if not (is_none env.add_in_path)
      then stop_with true (send_error internal_error ready ∷ [])
      else if not (is_none env.execute)
      then stop_with true []
      else send_entries env.entries [] true

  -- `get_received_message` throws for a message of another type than it is called with.
  abbrev pub reply_to : ClientMsgType → Replied Block
  reply_to index_ref = stop_with false (data_reply_index_ref (add_blocks env.found) ∷ [])
  reply_to index = record { log = []; has_directory = false; ended = throws }
  reply_to data_request = reply_extract
  reply_to server_status = stop_with false []
  reply_to transaction = stop_with false []

  abbrev pub reply_to_type : Option ClientMsgType → Replied Block
  reply_to_type none = stop_with false []
  reply_to_type (some t) = reply_to t

  unfoldable pub reply : Replied Block
  reply = if not (is_none env.received) then stop_with false [] else reply_to_type env.msg_type
