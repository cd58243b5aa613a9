-- ===== src/Network/Reply/Parts.antt =====
-- The order of what is sent to the client for one request.
use mathlib.Core.List.{append_assoc, append-nil}
use mashroom.Common.{
  ℕ, zero, suc, ◌+◌, ◌<◌, ◌≤◌, ltb, ◌≡◌, refl, ap, sym, subst, ◌∙◌, arith, not, ◌&&◌, Bool, true,
  false, Option, none, some, List, [], ◌∷◌, ◌++◌, length, get_elem?, ◌⊎◌, inl, inr, if◌then◌else◌,
}
use mashroom.Network.Reply.{
  ready, invalid_argument, DirectoryEntry, Env, Replied, Round, stops, goes_on, is_none, SentFile,
  refused, sent_parts, outside, Mapping, mapped, null_pointer, map_failed, is_null, read_parts,
  behind_header, send_sized, send_entry, after_round, ServerMsg, Part, error, data_reply_index_ref,
  data_reply_extract, data_reply_filepart, send_error, file_parts, send_file, send_entries,
  reply_extract,
}

-- The part that is numbered `o`, whose bytes are the first 8912 of the mapping.
abbrev pub part_at : ℕ → Part
part_at o = record { offset = o; start = 0; size = 8912 }

-- The loop over the offsets has no round, or reads no more than the file has.
abbrev pub IsReadable : ℕ → Type 0
IsReadable size = (size ≡ 0) ⊎ (8912 ≤ size)

module _ {Block : Type 0} where
  -- The parts of a file of the given size: one for each byte, numbered from the given number.
  abbrev pub IsFileFrom : ℕ → ℕ → List (ServerMsg Block) → Type 0
  IsFileFrom first size ms =
      (length ms ≡ size)
      × ((i : ℕ) → i < size → get_elem? ms i ≡ some (data_reply_filepart (part_at (first + i))))

  -- Headers, each alone or with the parts of a file of its size behind it.
  pub data IsFiles : List (ServerMsg Block) → Type 0 where
    no_files : IsFiles []
    header_alone :
        (size name : ℕ) (ms : List (ServerMsg Block))
        → IsFiles ms
        → IsFiles (data_reply_extract size name ∷ ms)
    header_and_file :
        (size name : ℕ) (parts ms : List (ServerMsg Block))
        → IsFileFrom 0 size parts
        → IsReadable size
        → IsFiles ms
        → IsFiles (data_reply_extract size name ∷ parts ++ ms)

  -- Nothing or one error, which is INVALID_ARGUMENT with READY.
  abbrev pub IsEnd : List (ServerMsg Block) → Type 0
  IsEnd ms = (ms ≡ []) ⊎ (ms ≡ error invalid_argument ready ∷ [])

  -- Files, and behind them an error at most.
  abbrev pub IsServed : List (ServerMsg Block) → Type 0
  IsServed ms =
      (files : List (ServerMsg Block)) × ((end : List (ServerMsg Block)) × (ms ≡ files ++ end)
        × IsFiles files
        × IsEnd end)

  -- The only message of an answer about the index.
  abbrev IsIndexReply : List (ServerMsg Block) → Type 0
  IsIndexReply ms = (blocks : List Block) × (ms ≡ data_reply_index_ref blocks ∷ [])

  -- What is sent is the one reply about the index, or files with one error behind them at most.
  abbrev pub IsAnswered : List (ServerMsg Block) → Type 0
  IsAnswered ms = IsIndexReply ms ⊎ IsServed ms

  IsFiles-append : (xs ys : List (ServerMsg Block)) → IsFiles xs → IsFiles ys → IsFiles (xs ++ ys)
  IsFiles-append [] ys no_files also = also
  IsFiles-append (m ∷ xs) ys (header_alone size name _ is) also =
      header_alone size name (xs ++ ys) (IsFiles-append xs ys is also)
  IsFiles-append (m ∷ xs) ys (header_and_file size name parts ms file readable is) also =
      rw (append_assoc parts ms ys)
        (header_and_file size name parts (ms ++ ys) file readable (IsFiles-append ms ys is also))

  IsFiles-IsServed : (ms : List (ServerMsg Block)) → IsFiles ms → IsServed ms
  IsFiles-IsServed ms is = (ms, ([], sym (append-nil ms), is, inl refl))

  error_behind :
      (ms : List (ServerMsg Block))
      → IsFiles ms
      → IsServed (ms ++ error invalid_argument ready ∷ [])
  error_behind ms is = (ms, (error invalid_argument ready ∷ [], refl, is, inr refl))

  module _ (env : Env Block) where
    pub length-file_parts : (size first : ℕ) → length (file_parts env size first) ≡ size
    unfolding file_parts
    length-file_parts zero first = refl
    length-file_parts (suc size) first = ap suc (length-file_parts size (suc first))

    pub get_elem?-file_parts :
        (size first i : ℕ)
        → i < size
        → get_elem? (file_parts env size first) i ≡ some (data_reply_filepart (part_at (first + i)))
    unfolding file_parts
    get_elem?-file_parts zero first i below = ground (arith, below)
    get_elem?-file_parts (suc size) first zero below =
        ap (λ o. some (data_reply_filepart (part_at o))) (omega arith)
    get_elem?-file_parts (suc size) first (suc i) below =
        get_elem?-file_parts size (suc first) i (omega (arith, below))
        ∙ ap (λ o. some (data_reply_filepart (part_at o))) (omega arith)

    -- Parts of a file are those of a file that can be read: it is empty, or has 8912 bytes at least.
    abbrev IsSentFile : ℕ → SentFile Block → Type 0
    IsSentFile size (sent_parts ms) = IsFileFrom 0 size ms × IsReadable size
    IsSentFile size refused = Unit
    IsSentFile size outside = Unit

    IsSentFile-if :
        (b : Bool) (size : ℕ) (r r' : SentFile Block)
        → IsSentFile size r
        → (b ≡ false → IsSentFile size r')
        → IsSentFile size (if b then r else r')
    IsSentFile-if true size r r' is also = is
    IsSentFile-if false size r r' is also = also refl

    is_file : (size : ℕ) → IsFileFrom 0 size (file_parts env size 0)
    is_file size = (length-file_parts size 0, get_elem?-file_parts size 0)

    no_file : (size : ℕ) → ltb 0 size ≡ false → IsSentFile size (sent_parts [])
    no_file zero h = ((refl, λ i below. absurd (omega (arith, below))), inl refl)
    no_file (suc size) h = ground (arith, h)

    read_parts-IsSentFile : (p : Mapping) (size : ℕ) → IsSentFile size (read_parts env p size)
    read_parts-IsSentFile mapped size =
        IsSentFile-if (ltb 0 size && ltb size 8912) size outside
          (sent_parts (file_parts env size 0)) tt (λ h. (is_file size, ground (arith, h)))
    read_parts-IsSentFile null_pointer size =
        IsSentFile-if (ltb 0 size) size outside (sent_parts []) tt (no_file size)
    read_parts-IsSentFile map_failed size =
        IsSentFile-if (ltb 0 size) size outside (sent_parts []) tt (no_file size)

    send_file-IsSentFile : (n size : ℕ) → IsSentFile size (send_file env n size)
    unfolding send_file
    send_file-IsSentFile n size = IsSentFile-if (not (env.opens n)) size refused _ tt (λ o.
        IsSentFile-if (is_null env (env.mmap n)) size refused _ tt (λ p.
          IsSentFile-if (not (env.advises n)) size refused _ tt
            (λ a. read_parts-IsSentFile (env.mmap n) size)))

    -- A round that goes on has sent files, and one that stops has served the request.
    abbrev IsRound : Round Block → Type 0
    IsRound (stops replied) = IsServed (replied.log)
    IsRound (goes_on log has) = IsFiles log

    IsRound-if :
        (b : Bool) (r r' : Round Block) → IsRound r → IsRound r' → IsRound (if b then r else r')
    IsRound-if true r r' is also = is
    IsRound-if false r r' is also = also

    behind_header-IsRound :
        (size name : ℕ) (sent : SentFile Block) (log : List (ServerMsg Block)) (has : Bool)
        → IsSentFile size sent
        → IsFiles log
        → IsRound (behind_header env sent (log ++ data_reply_extract size name ∷ []) has)
    unfolding send_error
    behind_header-IsRound size name (sent_parts ms) log has (is, readable) files =
        rw (append_assoc log (data_reply_extract size name ∷ []) ms) (
          IsFiles-append log (data_reply_extract size name ∷ ms) files (
            subst (λ l. IsFiles (data_reply_extract size name ∷ l)) (append-nil ms)
              (header_and_file size name ms [] is readable no_files)))
    behind_header-IsRound size name refused log has is files =
        error_behind (log ++ data_reply_extract size name ∷ [])
          (IsFiles-append log _ files (header_alone size name [] no_files))
    behind_header-IsRound size name outside log has is files =
        IsFiles-IsServed (log ++ data_reply_extract size name ∷ [])
          (IsFiles-append log _ files (header_alone size name [] no_files))

    send_sized-IsRound :
        (e : DirectoryEntry) (size : Option ℕ) (log : List (ServerMsg Block)) (has : Bool)
        → IsFiles log
        → IsRound (send_sized env e size log has)
    unfolding send_sized
    send_sized-IsRound e none log has files = IsFiles-IsServed log files
    send_sized-IsRound e (some size) log has files =
        IsRound-if (env.sends (length log)) _ _
          (behind_header-IsRound size e.name
            (send_file env (length (log ++ data_reply_extract size e.name ∷ [])) size) log has
            (send_file-IsSentFile (length (log ++ data_reply_extract size e.name ∷ [])) size) files)
          (IsFiles-append log _ files (header_alone size e.name [] no_files))

    send_entry-IsRound :
        (e : DirectoryEntry) (log : List (ServerMsg Block)) (has : Bool)
        → IsFiles log
        → IsRound (send_entry env e log has)
    unfolding send_entry send_error
    send_entry-IsRound e log has files =
        IsRound-if (not (e.is_regular_file && e.is_zip)) _ _ (error_behind log files)
          (send_sized-IsRound e (env.file_size (length log)) log has files)

    after_round-IsServed :
        (others : List (ServerMsg Block) → Bool → Replied Block) (r : Round Block)
        → ((log : List (ServerMsg Block)) (has : Bool)
            → IsFiles log
            → IsServed ((others log has).log))
        → IsRound r
        → IsServed ((after_round env others r).log)
    after_round-IsServed others (stops replied) also is = is
    after_round-IsServed others (goes_on log has) also is = also log has is

    send_entries-IsServed :
        (es : List DirectoryEntry) (log : List (ServerMsg Block)) (has : Bool)
        → IsFiles log
        → IsServed ((send_entries env es log has).log)
    send_entries-IsServed [] log has files = IsFiles-IsServed log files
    send_entries-IsServed (e ∷ es) log has files =
        after_round-IsServed (send_entries env es) (send_entry env e log has)
          (send_entries-IsServed es) (send_entry-IsRound e log has files)

    IsServed-if :
        (b : Bool) (r r' : Replied Block)
        → IsServed (r.log)
        → IsServed (r'.log)
        → IsServed ((if b then r else r').log)
    IsServed-if true r r' is also = is
    IsServed-if false r r' is also = also

    pub reply_extract-IsServed : IsServed ((reply_extract env).log)
    unfolding reply_extract send_error
    reply_extract-IsServed =
        let entries = send_entries-IsServed env.entries [] true no_files in
        let failed = error_behind [] no_files in
        let executed =
          IsServed-if (not (is_none env.execute)) _ _ (IsFiles-IsServed [] no_files) entries in
        let added = IsServed-if (not (is_none env.add_in_path)) _ _ failed executed in
        let created = IsServed-if (not env.creates_directories) _ _ failed added in
        IsServed-if (not (is_none env.set_by_request)) _ _ failed created
