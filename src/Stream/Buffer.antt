-- ===== src/Stream/Buffer.antt =====
-- The buffers of packages/core/src: `StreamBuffer` and `StreamUnBuffer` of utils/stream.ts, `BufferExec`
-- of utils/concurrence/common.ts, `StreamStoreBufferSave` and `StoreBackupDecoder` of
-- storage/utils.ts. An operation returns the batches that it hands on. The timer of `BufferExec` only
-- calls `drain`, at some time.
pub mod Batches
pub mod Lines
pub mod Backup
use aleph_indexer_framework.Prelude.{
  ℕ, zero, suc, ◌+◌, ◌%◌, Bool, true, false, List, [], ◌∷◌, ◌++◌, Option, none, some, length, take,
  drop, ltb, leb, ◌==◌, if◌then◌else◌,
}

module _ {ℓ} {T : Type ℓ} where
  abbrev pub concat : List (List T) → List T
  concat [] = []
  concat (xs ∷ xss) = xs ++ concat xss

  -- StreamBuffer._flush: the batch that is pushed, if the buffer holds anything.
  abbrev pub flush : List T → List (List T)
  flush [] = []
  flush (x ∷ xs) = (x ∷ xs) ∷ []

  -- StreamBuffer: `_transform` for each input, an array, and `_flush` at the end of the stream.
  pub stream_buffer : ℕ → List T → List (List T) → List (List T)
  stream_buffer size buffer [] = flush buffer
  stream_buffer size buffer (input ∷ inputs) =
      let buffer' = buffer ++ input in
      let kept = stream_buffer size buffer' inputs in
      let flushed = flush buffer' ++ stream_buffer size [] inputs in
      if leb size (length buffer') then flushed else kept

  -- StreamUnBuffer
  abbrev pub stream_un_buffer : List (List T) → List T
  stream_un_buffer = concat

  -- `!(this.buffer.length % this.bufferLength)`, where the remainder by 0 is NaN.
  abbrev pub is_full : ℕ → List T → Bool
  is_full buffer_length buffer =
      if buffer_length == 0 then true else length buffer % buffer_length == 0

  -- StreamStoreBufferSave: `_write` for each entity, and `_final`.
  pub store_buffer_save : ℕ → List T → List T → List (List T)
  store_buffer_save buffer_length buffer [] = flush buffer
  store_buffer_save buffer_length buffer (entity ∷ entities) =
      let buffer' = buffer ++ entity ∷ [] in
      let kept = store_buffer_save buffer_length buffer' entities in
      let saved = buffer' ∷ store_buffer_save buffer_length [] entities in
      if is_full buffer_length buffer' then saved else kept

  abbrev pub add_chunk : List T → Option (List (List T)) → Option (List (List T))
  add_chunk chunk none = none
  add_chunk chunk (some chunks) = some (chunk ∷ chunks)

  -- BufferExec.drain: the chunks that `exec` gets, on fuel.
  pub drain_chunks : ℕ → ℕ → List T → Option (List (List T))
  drain_chunks size fuel [] = some []
  drain_chunks size zero (x ∷ xs) = none
  drain_chunks size (suc fuel) (x ∷ xs) =
      add_chunk (take size (x ∷ xs)) (drain_chunks size fuel (drop size (x ∷ xs)))

  -- BufferExec.add: the buffer that is left, and the chunks where it is drained.
  pub buffer_exec_add : ℕ → ℕ → List T → List T → Option (List T × List (List T))
  buffer_exec_add size fuel buffer items =
      let buffer' = buffer ++ items in
      if ltb (length buffer') size
      then some (buffer', [])
      else elim (drain_chunks size fuel buffer') [ none ↦ none | some chunks ↦ some ([], chunks) ]

-- A character in front of the first line.
abbrev pub cons_char : ℕ → List (List ℕ) × List ℕ → List (List ℕ) × List ℕ
cons_char c ([], last) = ([], c ∷ last)
cons_char c (l ∷ lines, last) = ((c ∷ l) ∷ lines, last)

-- StoreBackupDecoder: a character is a number, and `newline` is the separator. `split` gives the lines
-- before the last separator, and the text behind it.
module _ (newline : ℕ) where
  unfoldable pub split : List ℕ → List (List ℕ) × List ℕ
  split [] = ([], [])
  split (c ∷ cs) =
      let (lines, last) = split cs in
      if c == newline then ([] ∷ lines, last) else cons_char c (lines, last)

-- A chunk is a list of bytes, and `to_string` is the method `toString` of a `Buffer` for utf8, which is
-- called on each chunk alone.
module _ (to_string : List ℕ → List ℕ) (newline : ℕ) where
  -- The lines that are decoded, and `lastLine`, which is dropped at the end.
  unfoldable pub decode : List ℕ → List (List ℕ) → List (List ℕ) × List ℕ
  decode last_line [] = ([], last_line)
  decode last_line (chunk ∷ chunks) =
      let (lines, last) = split newline (last_line ++ to_string chunk) in
      let (later, final) = decode last chunks in (lines ++ later, final)

-- StoreBackupEncoder, for each entity; `stringify` is JSON.stringify.
module _ {ℓ} {T : Type ℓ} (newline : ℕ) (stringify : T → List ℕ) where
  unfoldable pub encode : List T → List ℕ
  encode [] = []
  encode (e ∷ es) = stringify e ++ newline ∷ encode es
