-- ===== src/VirtioGpu/Messages.antt =====
-- The messages of kernel/src/virtio_gpu.rs: the structs that the driver drafts in its mailbox.
use polymorph_os.Prelude.{ℕ, ◌+◌, ◌*◌, Bool, true, false}

pub data CommandTy : Type 0 where
  undefined : CommandTy
  get_display_info : CommandTy
  resource_create_2d : CommandTy
  resource_unref : CommandTy
  set_scanout : CommandTy
  resource_flush : CommandTy
  transfer_to_host_2d : CommandTy
  resource_attach_backing : CommandTy
  resource_detach_backing : CommandTy
  resp_ok_nodata : CommandTy
  resp_ok_display_info : CommandTy

pub record ControlHeader : Type 0 where
  pub ty : CommandTy
  pub flags : ℕ
  pub fence_id : ℕ
  pub ctx_id : ℕ
  pub ring_index : ℕ

abbrev pub with_ty : CommandTy → ControlHeader
with_ty ty = record { ty = ty; flags = 0; fence_id = 0; ctx_id = 0; ring_index = 0 }

pub record GpuRect : Type 0 where
  pub x : ℕ
  pub y : ℕ
  pub width : ℕ
  pub height : ℕ

pub data ResourceFormat : Type 0 where
  bgrx : ResourceFormat
  xrgb : ResourceFormat

pub record ResourceCreate2d : Type 0 where
  pub header : ControlHeader
  pub resource_id : ℕ
  pub format : ResourceFormat
  pub width : ℕ
  pub height : ℕ

pub record AttachBacking : Type 0 where
  pub header : ControlHeader
  pub resource_id : ℕ
  pub num_entries : ℕ

pub record MemEntry : Type 0 where
  pub address : ℕ
  pub length : ℕ
  pub padding : ℕ

pub record SetScanout : Type 0 where
  pub header : ControlHeader
  pub rect : GpuRect
  pub scanout_id : ℕ
  pub resource_id : ℕ

pub record TransferToHost2d : Type 0 where
  pub header : ControlHeader
  pub rect : GpuRect
  pub offset : ℕ
  pub resource_id : ℕ
  pub padding : ℕ

pub record ResourceFlush : Type 0 where
  pub header : ControlHeader
  pub rect : GpuRect
  pub resource_id : ℕ
  pub padding : ℕ

-- A struct in the mailbox.
pub data Message : Type 0 where
  header : ControlHeader → Message
  create : ResourceCreate2d → Message
  attach : AttachBacking → Message
  entry : MemEntry → Message
  scanout : SetScanout → Message
  transfer : TransferToHost2d → Message
  flush : ResourceFlush → Message

-- `size_of` of the structs, in the C layout.
abbrev pub size_of_header : ℕ
size_of_header = 24

abbrev pub size_of_display_info : ℕ
size_of_display_info = 24 + 16 * 24

abbrev pub size_of_create : ℕ
size_of_create = 24 + 16

abbrev pub size_of_attach : ℕ
size_of_attach = 24 + 8

abbrev pub size_of_entry : ℕ
size_of_entry = 16

abbrev pub size_of_scanout : ℕ
size_of_scanout = 24 + 16 + 8

abbrev pub size_of_transfer : ℕ
size_of_transfer = 24 + 16 + 16

abbrev pub size_of_flush : ℕ
size_of_flush = 24 + 16 + 8

-- `ty == CommandTy::RespOkNodata`
abbrev pub is_ok_nodata : CommandTy → Bool
is_ok_nodata resp_ok_nodata = true
is_ok_nodata _ = false

-- `ty == CommandTy::RespOkDisplayInfo`
abbrev pub is_ok_display_info : CommandTy → Bool
is_ok_display_info resp_ok_display_info = true
is_ok_display_info _ = false
