-- ===== src/Tlv/Defs.antt =====
-- The functions of src/file_tlv.c. An iterator is a value: the NULL test on the pointer to it has
-- nothing to test, the other two do.
use ruuvi_air_mcuboot.Prelude.{ℕ, zero, suc, ◌+◌, ◌-◌, Bool, not, ◌&&◌, ◌||◌}
use ruuvi_air_mcuboot.Prelude.{Option, none, some, [], ltb, leb, ◌==◌, if◌then◌else◌}
use ruuvi_air_mcuboot.Prelude.{pos, is_neg, is_zero, minus_one, to_u32, add32}
use ruuvi_air_mcuboot.Prelude.{M, pure, out_of_fuel, lift, ◌>>=◌}
use ruuvi_air_mcuboot.Platform.Format.{ImageHeader, TlvInfo, Tlv, ImageFormat}
use ruuvi_air_mcuboot.Platform.Files.{FileApi, ReadResult, Whence}
use ruuvi_air_mcuboot.SafeAdd.{boot_tlv_off}

-- `file_tlv_iter_t`; `hdr` is none before `file_tlv_iter_begin`, as the zeroed struct has it.
pub record TlvIter : Type 0 where
  pub hdr : Option ImageHeader
  pub p_file : ℕ
  pub type : ℕ
  pub prot : Bool
  pub prot_end : ℕ
  pub tlv_off : ℕ
  pub tlv_end : ℕ

-- What `file_tlv_iter_next` answers: 0 with `*off`, `*len` and `*type`, or 1, or -1.
pub data Next : Type 0 where
  found : ℕ → ℕ → ℕ → Next
  no_more : Next
  failed : Next

-- One round of the loop: it returns, or goes on.
pub data Round : Type 0 where
  finished : Next → TlvIter → Round
  again : TlvIter → Round

-- `it->tlv_off == it->prot_end` in an image with protected TLVs: step over the second info.
unfoldable pub skip_info : ImageFormat → ImageHeader → TlvIter → TlvIter
skip_info fmt hdr it =
    if ltb 0 hdr.ih_protect_tlv_size && it.tlv_off == it.prot_end
    then record it { tlv_off = add32 it.tlv_off fmt.tlv_info_size }
    else it

-- The offset behind a TLV.
unfoldable pub after_tlv : ImageFormat → ℕ → Tlv → ℕ
after_tlv fmt off tlv = add32 off (fmt.tlv_size + tlv.it_len)

-- The loop's body once the TLV at `it.tlv_off` has been read.
unfoldable pub take_tlv : ImageFormat → TlvIter → Tlv → Round
unfolding after_tlv
take_tlv fmt it tlv =
    let it' = record it { tlv_off = after_tlv fmt it.tlv_off tlv } in
    if it.prot && leb it.prot_end it.tlv_off
    then finished no_more it
    else if fmt.tlv_any == it.type || tlv.it_type == it.type
    then finished (found (add32 it.tlv_off fmt.tlv_size) tlv.it_len tlv.it_type) it'
    else again it'

-- The end of `file_tlv_iter_begin`, with the last `info` that it read.
unfoldable pub start_iter : ImageFormat → ImageHeader → ℕ → ℕ → Bool → ℕ → TlvInfo → Option TlvIter
start_iter fmt hdr p_file type prot offset info =
    if not (fmt.tlv_info_magic == info.it_magic)
    then none
    else some (record {
      hdr = some hdr;
      p_file = p_file;
      type = type;
      prot = prot;
      prot_end = add32 offset hdr.ih_protect_tlv_size;
      tlv_off = add32 offset fmt.tlv_info_size;
      tlv_end = add32 (add32 offset hdr.ih_protect_tlv_size) info.it_tlv_tot;
    })

module _ {W : Type 0} (api : FileApi W) where
  -- The return value, and the bytes at the start of `output`.
  unfoldable pub load_image_data : ℕ → ℕ → ℕ → M W ReadResult
  load_image_data p_file start size = do
    rc ← lift (api.fs_seek p_file start Whence.seek_set)
    if is_neg rc then pure (record { rc = rc; bytes = [] }) else do
      r ← lift (api.fs_read p_file size)
      pure (if to_u32 r.rc == size then record r { rc = pos 0 } else record r { rc = minus_one })

module _ {W : Type 0} (fmt : ImageFormat) (api : FileApi W) where
  -- `file_tlv_iter_begin` from the first info on, and from the second one.
  unfoldable pub begin_at_info : ImageHeader → ℕ → ℕ → Bool → ℕ → ReadResult → M W (Option TlvIter)
  begin_at_info hdr p_file type prot offset r = pure (
      if is_zero r.rc
      then start_iter fmt hdr p_file type prot offset (fmt.parse_tlv_info r.bytes)
      else none)

  unfoldable pub begin_at_first : ImageHeader → ℕ → ℕ → Bool → ℕ → ReadResult → M W (Option TlvIter)
  begin_at_first hdr p_file type prot offset r =
      let info = fmt.parse_tlv_info r.bytes in
      if not (is_zero r.rc)
      then pure none
      else if fmt.tlv_prot_info_magic == info.it_magic
      then (if not (hdr.ih_protect_tlv_size == info.it_tlv_tot) then pure none else do
        r' ← load_image_data api p_file (add32 offset info.it_tlv_tot) fmt.tlv_info_size
        begin_at_info hdr p_file type prot offset r')
      else if not (hdr.ih_protect_tlv_size == 0)
      then pure none
      else begin_at_info hdr p_file type prot offset r

  -- `some` is 0 with the iterator, none is -1.
  unfoldable pub file_tlv_iter_begin : ImageHeader → ℕ → ℕ → Bool → M W (Option TlvIter)
  file_tlv_iter_begin hdr p_file type prot = if p_file == 0 then pure none else do
    r ← load_image_data api p_file (boot_tlv_off hdr) fmt.tlv_info_size
    begin_at_first hdr p_file type prot (boot_tlv_off hdr) r

  unfoldable pub iter_round : ImageHeader → TlvIter → M W Round
  iter_round hdr it = if not (ltb it.tlv_off it.tlv_end) then pure (finished no_more it) else do
    let it' = skip_info fmt hdr it
    r ← load_image_data api it'.p_file it'.tlv_off fmt.tlv_size
    pure (if is_zero r.rc then take_tlv fmt it' (fmt.parse_tlv r.bytes) else finished failed it')

  unfoldable pub iter_loop : ℕ → ImageHeader → TlvIter → M W (Next × TlvIter)
  iter_loop zero hdr it = out_of_fuel
  iter_loop (suc fuel) hdr it = do
    r ← iter_round hdr it
    elim r [ finished n it' ↦ pure (n, it') | again it' ↦ iter_loop fuel hdr it' ]

  -- The call, on the iterator's header. The fuel is one more than the distance to the end, which
  -- every round shortens.
  unfoldable pub iter_next_with : Option ImageHeader → TlvIter → M W (Next × TlvIter)
  iter_next_with none it = pure (failed, it)
  iter_next_with (some hdr) it =
      if it.p_file == 0 then pure (failed, it) else iter_loop (suc (it.tlv_end - it.tlv_off)) hdr it

  unfoldable pub file_tlv_iter_next : TlvIter → M W (Next × TlvIter)
  file_tlv_iter_next it = iter_next_with it.hdr it

-- none is -1.
unfoldable pub file_tlv_iter_is_prot : TlvIter → ℕ → Option Bool
file_tlv_iter_is_prot it off = elim it.hdr [
  | none ↦ none
  | some hdr ↦ if it.p_file == 0 then none else some (ltb off it.prot_end)
]
