-- ===== src/FileReceiver.antt =====
-- client_file_receiver.c: the files that a client receives. What the file system, malloc, stdio and
-- libsodium answer to the calls that one frame can make are parameters (`Answers`, `Box`). The bytes of
-- a staging file are kept in its entry, and the files that `link` has put in place in `saved`. The
-- table is read and written by one thread.
pub mod Invariant
pub mod Preserve
pub mod Transfer
use cipher_chat.Prelude.{
  ℕ, ◌+◌, ◌-◌, ◌%◌, Bool, true, false, not, ◌||◌, ◌&&◌, Option, none, some, List, [], ◌∷◌, ◌++◌,
  ltb, leb, ◌==◌, if◌then◌else◌, length, take, drop, get_or, set, replicate,
}
use cipher_chat.Prelude.Table.{find_index}
use cipher_chat.Status.{
  Errno, Result, ok, err, done, einval, enoent, enospc, eexist, enomem, emsgsize, eio, efbig,
  enametoolong, enotdir,
}
use cipher_chat.Text.{codes, decimal, fits}
use cipher_chat.Wire.{
  u64_mod, frame_file_begin, frame_file_chunk, frame_file_end, frame_file_error, byte,
}
use cipher_chat.FileProtocol.{
  FileBeginFrame, FileChunkFrame, decode_begin, decode_chunk, decode_control,
}
use cipher_chat.FileCrypto.{
  Box, decrypt_file, file_crypto_overhead, file_plaintext_max_size, max_incoming_files,
  download_path_limit,
}

pub record IncomingFile : Type 0 where
  pub active : Bool
  pub transfer_id : ℕ
  pub expected_size : ℕ
  pub received_size : ℕ
  pub sender : List ℕ
  pub filename : List ℕ
  pub file : Option (List ℕ)
  pub temp_path : List ℕ
  pub final_path : List ℕ

-- `memset(incoming_file, 0, sizeof(*incoming_file))`
abbrev pub zero_file : IncomingFile
zero_file = record {
  active = false;
  transfer_id = 0;
  expected_size = 0;
  received_size = 0;
  sender = [];
  filename = [];
  file = none;
  temp_path = [];
  final_path = [];
}

pub record Downloads : Type 0 where
  pub incoming_files : List IncomingFile
  pub saved : List (List ℕ × List ℕ)

unfoldable pub no_downloads : Downloads
no_downloads = record { incoming_files = replicate max_incoming_files zero_file; saved = [] }

-- The answers to the calls of one frame. `lstat` that finds nothing is `ok none`, an entry `ok (some
-- tt)`; `fwrite` is the number of bytes written; `rewrite` stands for the fseek, fwrite, fflush and
-- ftruncate that put the plaintext in place.
pub record Answers : Type 0 where
  pub mkdir : Result (Unit {0})
  pub stat_directory : Result Bool
  pub lstat : Result (Option (Unit {0}))
  pub getpid : ℕ
  pub mkstemp : Result (List ℕ)
  pub fdopen : Result (Unit {0})
  pub fwrite : Result (Unit {0})
  pub malloc : Result (Unit {0})
  pub read_back : Result (Unit {0})
  pub rewrite : Result (Unit {0})
  pub fclose : Result (Unit {0})
  pub link : Result (Unit {0})

abbrev pub file_at : List IncomingFile → ℕ → IncomingFile
file_at files i = get_or files i zero_file

abbrev pub put : Downloads → ℕ → IncomingFile → Downloads
put d i f = record d { incoming_files = set d.incoming_files i f }

unfoldable pub has_transfer : ℕ → IncomingFile → Bool
has_transfer transfer_id f = f.active && f.transfer_id == transfer_id

unfoldable pub find_incoming_file : ℕ → List IncomingFile → Option ℕ
unfolding has_transfer
find_incoming_file transfer_id files = find_index (has_transfer transfer_id) files

unfoldable pub is_idle : IncomingFile → Bool
is_idle f = not f.active

-- The index of the entry, which is cleared and has the id, or EEXIST or ENOSPC.
unfoldable pub create_incoming_file : Downloads → ℕ → Result ℕ × Downloads
unfolding find_incoming_file is_idle
create_incoming_file d transfer_id = elim (find_incoming_file transfer_id d.incoming_files) [
  | some i ↦ (err eexist, d)
  | none ↦ elim (find_index is_idle d.incoming_files) [
    | none ↦ (err enospc, d)
    | some i ↦ (ok i, put d i (record zero_file { active = true; transfer_id = transfer_id }))
  ]
]

-- The staging file is closed and removed, and the entry cleared.
abbrev pub discard_incoming_file : Downloads → ℕ → Downloads
discard_incoming_file d i = put d i zero_file

unfoldable pub cleanup : List IncomingFile → List IncomingFile
cleanup [] = []
cleanup (f ∷ fs) = let rest = cleanup fs in if f.active then zero_file ∷ rest else f ∷ rest

unfoldable pub cleanup_incoming_files : Downloads → Downloads
unfolding cleanup
cleanup_incoming_files d = record d { incoming_files = cleanup d.incoming_files }

abbrev pub is_eexist : Errno → Bool
is_eexist eexist = true
is_eexist _ = false

-- The second half of `ensure_download_directory`, at EEXIST.
unfoldable pub is_directory : Result Bool → Result (Unit {0})
is_directory (err e) = err e
is_directory (ok true) = done
is_directory (ok false) = err enotdir

unfoldable pub ensure_download_directory : Answers → List ℕ → Result (Unit {0})
unfolding is_directory
ensure_download_directory answers directory =
    if length directory == 0 then err einval else elim answers.mkdir [
      | ok u ↦ done
      | err e ↦ if is_eexist e then is_directory answers.stat_directory else err e
    ]

unfoldable pub build_path : List ℕ → List ℕ → Result (List ℕ)
build_path directory filename =
    let path = directory ++ (47 ∷ filename) in
    if fits path download_path_limit then ok path else err enametoolong

-- The template of the staging file's name.
unfoldable pub temp_template : List ℕ → ℕ → ℕ → List ℕ
temp_template directory pid transfer_id =
    directory
    ++ (codes "/.cipher-chat-"
        ++ (decimal pid ++ (codes "-" ++ (decimal transfer_id ++ codes "-XXXXXX"))))

-- Behind `create_incoming_file`, from the `lstat` on: the staging file's name, or an error.
unfoldable pub stage : Answers → List ℕ → ℕ → Result (List ℕ)
unfolding temp_template
stage answers directory transfer_id = elim answers.lstat [
  | err e ↦ err e
  | ok (some u) ↦ err eexist
  | ok none ↦
      if not (fits (temp_template directory answers.getpid transfer_id) download_path_limit)
      then err enametoolong
      else elim answers.mkstemp [
        | err e ↦ err e
        | ok path ↦ elim answers.fdopen [ err e ↦ err e | ok u ↦ ok path ]
      ]
]

-- Behind `create_incoming_file`: the paths, and the open staging file.
unfoldable pub open_staging :
    Answers → List ℕ → FileBeginFrame → Downloads → ℕ → Result (Unit {0}) × Downloads
unfolding build_path stage
open_staging answers directory begin d i = elim (build_path directory begin.filename) [
  | err e ↦ (err e, discard_incoming_file d i)
  | ok path ↦ elim (stage answers directory begin.transfer_id) [
    | err e ↦ (err e, discard_incoming_file d i)
    | ok temp ↦
        let opened : IncomingFile = record (file_at d.incoming_files i) {
          sender = begin.peer;
          filename = begin.filename;
          expected_size = begin.file_size;
          final_path = path;
          temp_path = temp;
          file = some [];
        } in
        (done, put d i opened)
  ]
]

unfoldable pub begin_created :
    Answers → List ℕ → FileBeginFrame → Result ℕ × Downloads → Result (Unit {0}) × Downloads
unfolding open_staging
begin_created answers directory begin (err e, d) = (err e, d)
begin_created answers directory begin (ok i, d) = open_staging answers directory begin d i

-- The test of the declared size; no difference is negative behind the first comparison.
unfoldable pub size_refused : FileBeginFrame → Bool
size_refused begin =
    let overhead = file_crypto_overhead + length begin.filename in
    ltb begin.file_size overhead || ltb file_plaintext_max_size (begin.file_size - overhead)

unfoldable pub begin_decoded :
    Answers → List ℕ → Downloads → FileBeginFrame → Result (Unit {0}) × Downloads
unfolding size_refused ensure_download_directory create_incoming_file begin_created
begin_decoded answers directory d begin =
    if size_refused begin
    then (err emsgsize, d)
    else elim (ensure_download_directory answers directory) [
      | err e ↦ (err e, d)
      | ok u ↦ begin_created answers directory begin (create_incoming_file d begin.transfer_id)
    ]

unfoldable pub receive_file_begin :
    Answers → List ℕ → Downloads → List ℕ → Result (Unit {0}) × Downloads
unfolding begin_decoded
receive_file_begin answers directory d frame = elim (decode_begin frame) [
  | err e ↦ (err e, d)
  | ok begin ↦ begin_decoded answers directory d begin
]

abbrev pub staged : IncomingFile → List ℕ
staged f = elim f.file [ none ↦ [] | some bytes ↦ bytes ]

-- The differences of `uint64_t` wrap.
unfoldable pub receive_at :
    Answers → Downloads → ℕ → IncomingFile → List ℕ → Result (Unit {0}) × Downloads
receive_at answers d i f contents =
    if ltb f.expected_size f.received_size
      || ltb ((u64_mod + f.expected_size - f.received_size) % u64_mod) (length contents)
    then (err efbig, discard_incoming_file d i)
    else elim answers.fwrite [
      | err e ↦ (err e, discard_incoming_file d i)
      | ok u ↦
          let grown : IncomingFile = record f {
            file = some (staged f ++ contents);
            received_size = (f.received_size + length contents) % u64_mod;
          } in
          (done, put d i grown)
    ]

unfoldable pub receive_file_chunk : Answers → Downloads → List ℕ → Result (Unit {0}) × Downloads
unfolding find_incoming_file receive_at
receive_file_chunk answers d frame = elim (decode_chunk frame) [
  | err e ↦ (err e, d)
  | ok chunk ↦ elim (find_incoming_file chunk.transfer_id d.incoming_files) [
    | none ↦ (err enoent, d)
    | some i ↦ receive_at answers d i (file_at d.incoming_files i) chunk.contents
  ]
]

module _ (box : Box) where
  -- The bytes that take the place of the encrypted ones in the staging file.
  unfoldable pub decrypt_received_file : Answers → IncomingFile → List ℕ → Result (List ℕ)
  decrypt_received_file answers f private_key = elim answers.malloc [
    | err e ↦ err e
    | ok u ↦
        if not (length (staged f) == f.expected_size) then err eio else elim answers.read_back [
          | err e ↦ err e
          | ok u ↦ elim (decrypt_file box f.filename (staged f) private_key) [
            | err e ↦ err e
            | ok contents ↦ elim answers.rewrite [ err e ↦ err e | ok u ↦ ok contents ]
          ]
        ]
  ]

  -- Behind `decrypt_received_file`: fclose and link, the entry cleared in every case.
  unfoldable pub save :
      Answers → Downloads → ℕ → IncomingFile → Result (List ℕ) → Result (Unit {0}) × Downloads
  save answers d i f (err e) = (err e, discard_incoming_file d i)
  save answers d i f (ok contents) = elim answers.fclose [
    | err e ↦ (err e, discard_incoming_file d i)
    | ok u ↦ elim answers.link [
      | err e ↦ (err e, discard_incoming_file d i)
      | ok u ↦
          let cleared : Downloads = put d i zero_file in
          (done, record cleared { saved = d.saved ++ (f.final_path, contents) ∷ [] })
    ]
  ]

  unfoldable pub end_at :
      Answers → Downloads → ℕ → IncomingFile → List ℕ → Result (Unit {0}) × Downloads
  unfolding decrypt_received_file save
  end_at answers d i f private_key =
      if not (f.received_size == f.expected_size)
      then (err eio, discard_incoming_file d i)
      else save answers d i f (decrypt_received_file answers f private_key)

  unfoldable pub receive_file_end :
      Answers → Downloads → List ℕ → List ℕ → Result (Unit {0}) × Downloads
  unfolding find_incoming_file end_at
  receive_file_end answers d frame private_key = elim (decode_control frame frame_file_end) [
    | err e ↦ (err e, d)
    | ok id ↦ elim (find_incoming_file id d.incoming_files) [
      | none ↦ (err enoent, d)
      | some i ↦ end_at answers d i (file_at d.incoming_files i) private_key
    ]
  ]

  unfoldable pub receive_file_error : Downloads → List ℕ → Result (Unit {0}) × Downloads
  unfolding find_incoming_file
  receive_file_error d frame = elim (decode_control frame frame_file_error) [
    | err e ↦ (err e, d)
    | ok id ↦ elim (find_incoming_file id d.incoming_files) [
      | none ↦ (done, d)
      | some i ↦ (done, discard_incoming_file d i)
    ]
  ]

  unfoldable pub handle_incoming_file_frame :
      Answers → List ℕ → List ℕ → Downloads → List ℕ → Result (Unit {0}) × Downloads
  unfolding receive_file_begin receive_file_chunk receive_file_end receive_file_error
  handle_incoming_file_frame answers directory private_key d frame =
      if length frame == 0
      then (err einval, d)
      else if byte frame 0 == frame_file_begin
      then receive_file_begin answers directory d frame
      else if byte frame 0 == frame_file_chunk
      then receive_file_chunk answers d frame
      else if byte frame 0 == frame_file_end
      then receive_file_end answers d frame private_key
      else if byte frame 0 == frame_file_error
      then receive_file_error d frame
      else (err einval, d)
