-- ===== src/Sidecar/StderrTail/Tests.antt =====
-- The tail of the standard error at concrete reads, of which the third fails.
use nvim_remote_mirror.Prelude.{List, [], ◌∷◌, codes, arith}
use nvim_remote_mirror.Sidecar.StderrTail.{
  no_stderr, StderrRead, bytes_read, failed_read, read_stderr,
}
use nvim_remote_mirror.Sidecar.StderrTail.Kept.{bytes_of, error_of, Keeps, read_stderr-Keeps}

abbrev reads : List StderrRead
reads =
    bytes_read (codes "error: ")
    ∷ bytes_read (codes "no such file")
    ∷ failed_read (codes "broken pipe")
    ∷ bytes_read (codes "never read")
    ∷ []

read_stderr-Keeps_example : Keeps (bytes_of reads) (error_of reads) (read_stderr no_stderr reads)
read_stderr-Keeps_example =
    read_stderr-Keeps reads (omega arith, (omega arith, (omega arith, (omega arith, tt))))
