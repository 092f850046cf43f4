-- ===== src/Protocol.antt =====
-- The packets that the supervisor and a worker exchange: their kinds, their header, and the record that
-- a packet holds. platform/safe3/usb_supervisor.c and platform/raspberry-pi/usb_functionfs.c have
-- this code word for word.
use virtual_trezor.Prelude.{
  ℕ, ◌+◌, Bool, not, ◌&&◌, Option, some, List, ◌∷◌, ◌++◌, map, length, drop, leb, ◌==◌,
}
use virtual_trezor.Bytes.{byte, be16, be32, put_be16, put_be32}

abbrev pub protocol_header_length : ℕ
protocol_header_length = 20

abbrev pub max_record_length : ℕ
max_record_length = 1048576

abbrev pub max_transferred_fds : ℕ
max_transferred_fds = 32

-- The record kinds.
abbrev pub kind_initial_resources : ℕ
kind_initial_resources = 0x01

abbrev pub kind_usb_endpoints : ℕ
kind_usb_endpoints = 0x02

abbrev pub kind_usb_bus_event : ℕ
kind_usb_bus_event = 0x03

abbrev pub kind_usb_control_request : ℕ
kind_usb_control_request = 0x04

abbrev pub kind_quiesce : ℕ
kind_quiesce = 0x11

abbrev pub kind_configuration_rejected : ℕ
kind_configuration_rejected = 0x12

abbrev pub kind_configure : ℕ
kind_configure = 0x80

abbrev pub kind_usb_control_response : ℕ
kind_usb_control_response = 0x81

abbrev pub kind_serving : ℕ
kind_serving = 0x82

abbrev pub kind_quiesced : ℕ
kind_quiesced = 0x84

-- One item of ancillary data: SCM_RIGHTS with its descriptors, or anything else.
pub data Ancillary : Type 0 where
  rights : List ℕ → Ancillary
  other : Ancillary

-- What recvmsg stores: the packet's bytes, MSG_TRUNC or MSG_CTRUNC, and the ancillary items.
pub record Message : Type 0 where
  pub bytes : List ℕ
  pub truncated : Bool
  pub ancillary : List Ancillary

-- struct worker_record. `body` is the list of the `body_length` bytes and `fds` that of the
-- `fd_count` descriptors, where an entry that was handed over is -1.
pub record WorkerRecord : Type 0 where
  pub kind : ℕ
  pub generation : ℕ
  pub request_id : ℕ
  pub body : List ℕ
  pub fds : List (Option ℕ)

pub data Errno : Type 0 where
  -- EINTR; EAGAIN or EWOULDBLOCK; one that ends a generation, ENODEV, ESHUTDOWN or EPIPE, and in the
  -- Safe 3 driver EBADF too; any other.
  interrupted would_block generation_over other_errno : Errno

-- What a system or library call returns: a failure (-1, NULL, false), a number or a buffer.
pub data Answer : Type 0 where
  failed : Errno → Answer
  number : ℕ → Answer
  buffer : List ℕ → Answer

unfoldable pub has_magic : List ℕ → Bool
has_magic packet =
    byte packet 0 == b'U'
    && byte packet 1 == b'G'
    && byte packet 2 == b'S'
    && byte packet 3 == b'P'
    && byte packet 4 == 1

unfoldable pub header_is_valid : Message → Bool
unfolding has_magic
header_is_valid m =
    not m.truncated && leb protocol_header_length (length m.bytes) && has_magic m.bytes

unfoldable pub lengths_are_valid : List ℕ → Bool
unfolding be16 be32
lengths_are_valid packet =
    leb (be32 packet 16) max_record_length
    && length packet == protocol_header_length + be32 packet 16
    && leb (be16 packet 6) max_transferred_fds

unfoldable pub record_of : List ℕ → List ℕ → WorkerRecord
unfolding be32
record_of packet fds = record {
  kind = byte packet 5;
  generation = be32 packet 8;
  request_id = be32 packet 12;
  body = drop protocol_header_length packet;
  fds = map some fds;
}

unfoldable pub encode_record : ℕ → ℕ → ℕ → List ℕ → List ℕ
unfolding put_be16 put_be32
encode_record kind generation request_id body =
    b'U'
    ∷ b'G'
    ∷ b'S'
    ∷ b'P'
    ∷ 1
    ∷ kind
    ∷ (put_be16 0
        ++ (put_be32 generation ++ (put_be32 request_id ++ (put_be32 (length body) ++ body))))
