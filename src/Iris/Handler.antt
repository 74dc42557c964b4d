-- ===== src/Iris/Handler.antt =====
-- `doOp` and `LibHandler` of iris.cpp: a request is done object by object through the storage
-- clients, or handed to the servers of the library.
use symbios.Base.{
  ℕ, ◌+◌, ◌%◌, ◌^◌, Bool, Option, none, some, List, [], ◌∷◌, ◌++◌, ltb, if◌then◌else◌,
}
use symbios.Base.Int.{int_of_size, size_of_int, size_difference}
use symbios.Base.Result.{Result, ok, err, aborted, null_pointer, out_of_bounds, ◌>>=◌}
use symbios.Base.Text.{Bytes}
use symbios.Base.Memory.{store, c_string}
use symbios.Objects.{Data, Io, no_data}
use symbios.Client.{Rpc, store_request, locate_request, delete_request}
use symbios.Iris.{
  IoLib, posix_lib, iris_lib, niobe_lib, symbios_lib, OpType, read_op, write_op, delete_op,
  DataDescriptor, new_mapper, map_objects,
}

-- The fields of `LibHandler` that the requests read.
pub record LibHandler : Type 0 where
  pub lib_type : IoLib
  pub db_type : ℕ
  pub max_obj_size : ℕ
  pub print_p : Bool
  pub file : Bytes

-- `data_offset`, an `int`, as the `size_t` that it is compared as, after `size` bytes more.
abbrev pub next_offset : ℕ → ℕ → ℕ
next_offset data_offset size = size_of_int (int_of_size (data_offset + size))

-- What `print_p` writes to `std::cout`: a NUL is set behind the bytes that were read.
unfoldable pub shown : Bool → ℕ → Option Bytes → Bytes → Result Bytes
unfolding store c_string
shown print_p size buffer out =
    if print_p
    then elim buffer [
      | none ↦ err null_pointer
      | some b ↦ store b size (0 ∷ []) >>= λ block. ok (out ++ c_string block)
    ]
    else ok out

-- The caller's block behind a call that was given it as its destination.
unfoldable pub callers_block : Option Bytes → Data → Option Bytes
callers_block none d = none
callers_block (some block) d = d.buffer

-- `objs[0]`, which must be there.
unfoldable pub first_object : List DataDescriptor → Result DataDescriptor
first_object [] = err out_of_bounds
first_object (o ∷ os) = ok o

-- The request to the servers for a range of the file.
abbrev pub file_range : LibHandler → ℕ → ℕ → Option Bytes → Data
file_range h offset request_size buffer = record {
  id = h.file;
  position = offset;
  buffer = buffer;
  data_size = request_size;
  storage_index = h.db_type;
}

-- The new line behind what was printed.
unfoldable pub end_line : Bool → Bytes → Bytes
end_line print_p out = if print_p then out ++ b'\n' ∷ [] else out

-- What the calls of a handler change.
pub record World (io : Io) (rpc : Rpc) : Type 0 where
  pub storage : io.State
  pub servers : rpc.State
  pub output : Bytes

module _ (io : Io) where
  -- The second loop of `do_mapped_write` for Iris.
  unfoldable pub write_objects :
      ℕ → Option Bytes → List DataDescriptor → ℕ → io.State → Result io.State
  write_objects db_type buffer [] source_position s = ok s
  write_objects db_type buffer (o ∷ os) source_position s =
      let dest_data = record no_data {
        id = o.id;
        position = o.position;
        data_size = o.size;
        storage_index = db_type;
      } in
      let src_data = record no_data {
        buffer = buffer;
        position = source_position;
        data_size = o.size;
      } in
      io.write db_type s src_data dest_data
      >>= write_objects db_type buffer os (source_position + o.size)

  -- The loop of `do_mapped_delete` for Iris; the source that it also fills is not used.
  unfoldable pub remove_objects : ℕ → List DataDescriptor → io.State → Result io.State
  remove_objects db_type [] s = ok s
  remove_objects db_type (o ∷ os) s =
      io.remove db_type s
        (record no_data { id = o.id; position = o.position; storage_index = db_type })
      >>= λ r. remove_objects db_type os r.1

  -- The loop of `do_mapped_read` for Iris. What is read is in a block of its own, which is freed.
  unfoldable pub read_objects :
      LibHandler → ℕ → List DataDescriptor → ℕ → io.State → Bytes → Result Bytes
  unfolding shown
  read_objects h request_size [] data_offset s out = ok out
  read_objects h request_size (o ∷ os) data_offset s out =
      let src_data = record no_data {
        id = o.id;
        position = o.position;
        data_size = o.size;
        storage_index = h.db_type;
      } in
      let dest_data = record no_data {
        data_size =
            if ltb request_size ((data_offset + o.size) % 2 ^ 64)
            then size_difference request_size data_offset
            else o.size;
      } in
      io.read h.db_type s src_data dest_data >>= λ d.
      shown h.print_p o.size d.buffer out >>= λ out'.
      let rest = read_objects h request_size os (next_offset data_offset o.size) s out' in
      if ltb request_size (next_offset data_offset o.size) then ok out' else rest

-- The storage clients, those that `IOFactory::GetIOClient` finds, and the servers.
module _ {ℓ} {Client : Type ℓ} (io : Io) (get_io_client : ℕ → Result Client) (rpc : Rpc)
    (num_servers : ℕ) where
  -- A request is mapped, and `objs[0]` is looked at, before the client is found.
  unfoldable pub write_mapped :
      LibHandler → ℕ → ℕ → Option Bytes → World io rpc → Result (World io rpc)
  unfolding write_objects first_object map_objects
  write_mapped h offset request_size buffer w =
      map_objects (new_mapper h.db_type h.max_obj_size)
        (record { id = h.file; position = offset; size = request_size; chunk_index = 0 })
      >>= λ objs. first_object objs >>= λ first. get_io_client h.db_type >>= λ client.
          write_objects io h.db_type buffer objs 0 w.storage >>= λ s. ok (record w { storage = s })

  unfoldable pub write_through :
      LibHandler → ℕ → ℕ → Option Bytes → World io rpc → Result (World io rpc)
  write_through h offset request_size buffer w =
      store_request rpc num_servers w.servers
        (record (file_range h offset request_size buffer) { position = 0 })
        (file_range h offset request_size none)
      >>= λ t. ok (record w { servers = t })

  unfoldable pub do_mapped_write :
      LibHandler → ℕ → ℕ → Option Bytes → World io rpc → Result (World io rpc)
  unfolding write_mapped write_through
  do_mapped_write h offset request_size buffer w = elim h.lib_type [
    | iris_lib ↦ write_mapped h offset request_size buffer w
    | symbios_lib ↦ write_through h offset request_size buffer w
    | niobe_lib ↦ write_through h offset request_size buffer w
    | posix_lib ↦ err (aborted 3)
  ]

  unfoldable pub delete_by :
      IoLib
      → LibHandler
      → ℕ
      → ℕ
      → Option Bytes
      → List DataDescriptor
      → World io rpc
      → Result (World io rpc)
  unfolding remove_objects
  delete_by iris_lib h offset request_size buffer objs w = get_io_client h.db_type >>= λ client.
      remove_objects io h.db_type objs w.storage >>= λ s. ok (record w { storage = s })
  delete_by posix_lib h offset request_size buffer objs w = err (aborted 3)
  delete_by lib h offset request_size buffer objs w =
      delete_request rpc num_servers w.servers (file_range h offset request_size buffer) >>= λ r.
      ok (record w { servers = r.1 })

  -- Every library maps the range, and looks at `objs[0]`, first.
  unfoldable pub do_mapped_delete :
      LibHandler → ℕ → ℕ → Option Bytes → World io rpc → Result (World io rpc)
  unfolding delete_by first_object map_objects
  do_mapped_delete h offset request_size buffer w =
      map_objects (new_mapper h.db_type h.max_obj_size)
        (record { id = h.file; position = offset; size = request_size; chunk_index = 0 })
      >>= λ objs.
          first_object objs >>= λ first. delete_by h.lib_type h offset request_size buffer objs w

  unfoldable pub locate_through :
      LibHandler → ℕ → ℕ → Option Bytes → World io rpc → Result (World io rpc × Option Bytes)
  unfolding callers_block
  locate_through h offset request_size buffer w =
      locate_request rpc num_servers w.servers (file_range h offset request_size buffer)
        (record (file_range h offset request_size buffer) { position = 0 })
      >>= λ p. ok (record w { servers = p.1 }, callers_block buffer p.0)

  unfoldable pub read_by :
      IoLib
      → LibHandler
      → ℕ
      → ℕ
      → Option Bytes
      → List DataDescriptor
      → World io rpc
      → Result (World io rpc × Option Bytes)
  unfolding read_objects end_line locate_through
  read_by iris_lib h offset request_size buffer objs w = get_io_client h.db_type >>= λ client.
      read_objects io h request_size objs 0 w.storage w.output >>= λ out.
      ok (record w { output = end_line h.print_p out }, buffer)
  read_by posix_lib h offset request_size buffer objs w = err (aborted 3)
  read_by lib h offset request_size buffer objs w = locate_through h offset request_size buffer w

  -- With the caller's block as it is behind the call.
  unfoldable pub do_mapped_read :
      LibHandler → ℕ → ℕ → Option Bytes → World io rpc → Result (World io rpc × Option Bytes)
  unfolding read_by map_objects
  do_mapped_read h offset request_size buffer w =
      map_objects (new_mapper h.db_type h.max_obj_size)
        (record { id = h.file; position = offset; size = request_size; chunk_index = 0 })
      >>= λ objs. read_by h.lib_type h offset request_size buffer objs w

  -- `LibHandler::run`
  unfoldable pub run :
      OpType
      → LibHandler
      → ℕ
      → ℕ
      → Option Bytes
      → World io rpc
      → Result (World io rpc × Option Bytes)
  unfolding do_mapped_read do_mapped_write do_mapped_delete
  run read_op h offset request_size buffer w = do_mapped_read h offset request_size buffer w
  run write_op h offset request_size buffer w =
      do_mapped_write h offset request_size buffer w >>= λ v. ok (v, buffer)
  run delete_op h offset request_size buffer w =
      do_mapped_delete h offset request_size buffer w >>= λ v. ok (v, buffer)
