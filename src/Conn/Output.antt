-- ===== src/Conn/Output.antt =====
-- lib/irccd/conn.c and server.c: the output buffer of a connection, `irc__conn_push`, `conn_send`
-- and `irc_server_send_va`. The buffer is the list of its first `outsz` bytes.
pub mod Fifo
use irccd.Base.{
  ℕ, ◌+◌, ◌-◌, Bool, not, [], ◌∷◌, ◌++◌, leb, ◌==◌, if◌then◌else◌, length, take, drop, Bytes,
  enobufs, enotconn, Result, ok, err,
}

abbrev pub out_size : ℕ
out_size = 65536

abbrev pub message_len : ℕ
message_len = 512

abbrev pub terminator : Bytes
terminator = b'\r' ∷ b'\n' ∷ []

-- `irc__conn_push`. The buffer is never longer than `out_size`, so the subtraction does not wrap.
unfoldable pub push : Bytes → Bytes → Result Bytes
push out text =
    if leb (out_size - length out) (length text + 2)
    then err enobufs
    else ok (out ++ (text ++ terminator))

-- `conn_send` after the transport took `ns` bytes.
unfoldable pub send : Bytes → ℕ → Bytes
send out ns = if ns == 0 then out else if leb (length out) ns then [] else drop ns out

-- `irc_server_send_va`: `text` is the whole formatted message, of which `vsnprintf` keeps what fits
-- beside the NUL.
unfoldable pub send_va : Bool → Bytes → Bytes → Result Bytes
unfolding push
send_va ready out text = if not ready then err enotconn else push out (take (message_len - 1) text)
