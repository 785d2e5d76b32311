-- ===== src/Gpfifo/Header.antt =====
-- `SubchannelId` of soc/gm20b/gpfifo.h and `PushBufferMethodHeader` of gpfifo.cpp.
use skyline.Base.{ℕ, ◌+◌, ◌/◌, ◌%◌, ◌^◌, Bool, ◌&&◌, ltb, leb, ◌==◌, if◌then◌else◌}

pub data SubchannelId : Type 0 where
  three_d compute inline2mem two_d copy software0 software1 software2 : SubchannelId

abbrev pub subchannel_id : ℕ → SubchannelId
subchannel_id n =
    if n == 0
    then three_d
    else if n == 1
    then compute
    else if n == 2
    then inline2mem
    else if n == 3
    then two_d
    else if n == 4
    then copy
    else if n == 5
    then software0
    else if n == 6
    then software1
    else software2

pub data SecOp : Type 0 where
  grp0_use_tert inc_method grp2_use_tert non_inc_method imm_data_method one_inc reserved6 : SecOp
  end_pb_segment : SecOp

abbrev pub sec_op_of : ℕ → SecOp
sec_op_of n =
    if n == 0
    then grp0_use_tert
    else if n == 1
    then inc_method
    else if n == 2
    then grp2_use_tert
    else if n == 3
    then non_inc_method
    else if n == 4
    then imm_data_method
    else if n == 5
    then one_inc
    else if n == 6
    then reserved6
    else end_pb_segment

-- `method_count` is `immdData` as well.
pub record MethodHeader : Type 0 where
  pub method_address : ℕ
  pub method_sub_channel : SubchannelId
  pub method_count : ℕ
  pub sec_op : SecOp

unfoldable pub method_header : ℕ → MethodHeader
method_header raw = record {
  method_address = raw % 2 ^ 12;
  method_sub_channel = subchannel_id (raw / 2 ^ 13 % 2 ^ 3);
  method_count = raw / 2 ^ 16 % 2 ^ 13;
  sec_op = sec_op_of (raw / 2 ^ 29 % 2 ^ 3);
}

abbrev pub engine_methods_end : ℕ
engine_methods_end = 0xe00

-- `GPFIFO::RegisterCount`
abbrev pub register_count : ℕ
register_count = 0x40

abbrev pub pure_size : MethodHeader → ℕ
pure_size h = elim h.sec_op [
  | non_inc_method ↦ 0
  | imm_data_method ↦ 0
  | one_inc ↦ 1
  | _ ↦ h.method_count
]

-- `Pure`
unfoldable pub is_pure : MethodHeader → Bool
is_pure h =
    ltb ((h.method_address + pure_size h) % 2 ^ 16) engine_methods_end
    && leb register_count h.method_address
