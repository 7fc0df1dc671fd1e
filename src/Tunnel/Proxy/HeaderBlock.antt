-- ===== src/Tunnel/Proxy/HeaderBlock.antt =====
-- The header loop of `handleHTTPConnection`: which host it finds, and that it neither drops nor
-- changes a byte.
use void_link_tunnels.Base.{
  ◌≡◌, ◌≢◌, refl, ap, List, [], ◌∷◌, ◌++◌, append_assoc, append-nil, arith, Bytes, All, Lacks,
  bytes_beq, bytes_beq_iff, bytes_eq, codes,
}
use void_link_tunnels.Text.{trim_space, trim_left, trim_right, is_space}
use void_link_tunnels.Tunnel.Proxy.{header_loop, host_after, read_headers}

append_one : (raw s : Bytes) (c : _) → (raw ++ c ∷ []) ++ s ≡ raw ++ c ∷ s
append_one raw s c = append_assoc raw (c ∷ []) s

header_loop-append :
    (stream raw line host : Bytes)
    → (header_loop stream raw line host).raw ++ (header_loop stream raw line host).unread
      ≡ raw ++ stream
unfolding header_loop
header_loop-append [] raw line host = refl
header_loop-append (c ∷ s) raw line host =
    let line' = line ++ c ∷ [] in
    ground (
      arith,
      header_loop-append s (raw ++ c ∷ []) [] (host_after (trim_space line') host),
      header_loop-append s (raw ++ c ∷ []) line' host,
      append_one raw s c,
    )

-- Whatever a player sends to the web proxy, the bytes kept as the headers followed by the bytes left
-- in the reader are what was sent: none is lost, changed or sent twice.
pub read_headers-append :
    (stream : Bytes) → (read_headers stream).raw ++ (read_headers stream).unread ≡ stream
unfolding read_headers
read_headers-append stream = header_loop-append stream [] [] []

-- A line as it is sent.
abbrev pub put_line : Bytes → Bytes
put_line line = line ++ b'\n' ∷ []

-- A header line: one line, and not blank.
pub record IsField (line : Bytes) : Type 0 where
  pub one_line : Lacks b'\n' line
  pub text : trim_space (put_line line) ≢ []

-- A header block: its lines, and a blank line.
pub put_headers : List Bytes → Bytes
put_headers [] = codes "\r\n"
put_headers (line ∷ lines) = put_line line ++ put_headers lines

-- The host that a list of header lines names: the last one wins.
unfoldable pub host_of : List Bytes → Bytes → Bytes
host_of [] host = host
host_of (line ∷ lines) host = host_of lines (host_after (trim_space (put_line line)) host)

-- Up to the end of a line, the loop only collects.
header_loop-line :
    (line s raw done host : Bytes)
    → Lacks b'\n' line
    → header_loop (line ++ s) raw done host ≡ header_loop s (raw ++ line) (done ++ line) host
unfolding header_loop
header_loop-line [] s raw done host h = rw (append-nil raw, append-nil done)
header_loop-line (c ∷ line) s raw done host (hc, h) = ground (
  arith,
  header_loop-line line s (raw ++ c ∷ []) (done ++ c ∷ []) host h,
  append_one raw line c,
  append_one done line c,
)

-- At the end of a line that is not blank, its text is looked at and the next one begins.
header_loop-field :
    (line s raw host : Bytes)
    → IsField line
    → header_loop (put_line line ++ s) raw [] host
      ≡ header_loop s (raw ++ put_line line) [] (host_after (trim_space (put_line line)) host)
unfolding header_loop
header_loop-field line s raw host h =
    rw (append_assoc line (b'\n' ∷ []) s, header_loop-line line (b'\n' ∷ s) raw [] host h.one_line)
      (ground (
        arith,
        h.text,
        bytes_beq_iff (trim_space (put_line line)) [],
        append_assoc raw line (b'\n' ∷ []),
      ))

header_loop-blank :
    (s raw host : Bytes)
    → header_loop (codes "\r\n" ++ s) raw [] host
      ≡ record { host = host; raw = raw ++ codes "\r\n"; unread = s }
unfolding header_loop trim_space trim_left trim_right is_space bytes_beq
header_loop-blank s raw host =
    ap (λ r. record { host = host; raw = r; unread = s })
      (append_assoc raw (b'\r' ∷ []) (b'\n' ∷ []))

header_loop-put_headers :
    (lines : List Bytes) (s raw host : Bytes)
    → All IsField lines
    → header_loop (put_headers lines ++ s) raw [] host
      ≡ record { host = host_of lines host; raw = raw ++ put_headers lines; unread = s }
unfolding put_headers host_of
header_loop-put_headers [] s raw host h = header_loop-blank s raw host
header_loop-put_headers (line ∷ lines) s raw host (hl, h) = rw (
  append_assoc (put_line line) (put_headers lines) s,
  header_loop-field line (put_headers lines ++ s) raw host hl,
  header_loop-put_headers lines s (raw ++ put_line line)
      (host_after (trim_space (put_line line)) host) h,
  append_assoc raw (put_line line) (put_headers lines),
)

-- A block of header lines that are not blank, a blank line, and any further bytes: the loop ends at
-- the blank line; it keeps the block as it was sent, leaves the further bytes unread, and the host
-- is that of the last line that begins with `host:`, in any case, without the spaces around it.
pub read_headers-put_headers :
    (lines : List Bytes) (rest : Bytes)
    → All IsField lines
    → read_headers (put_headers lines ++ rest)
      ≡ record { host = host_of lines []; raw = put_headers lines; unread = rest }
unfolding read_headers
read_headers-put_headers lines rest h = header_loop-put_headers lines rest [] [] h
