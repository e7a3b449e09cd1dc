-- ===== src/Filter/Setup.antt =====
-- The filters of a new connection: `tls_filter_pre_conn_init` and `tls_filter_conn_init` of
-- src/tls_filter.c.
use mod_tls.Base.{
  ℕ, Bool, false, not, ◌&&◌, ◌*◌, ◌+◌, Option, none, some, is_some, List, [], if◌then◌else◌,
}
use mod_tls.Brigade.{Bucket}
use mod_tls.Conf.{ServerConf}
use mod_tls.Conn.{Conn, ConnRec, pre_conn_init}
use mod_tls.Filter.Output.{buf_plain_size, chunk_size}

-- TLS_REC_MAX_SIZE
abbrev rec_max_size : ℕ
rec_max_size = chunk_size + 1024

-- The fields that `tls_filter_pre_conn_init` gives a value.
pub record Fresh : Type 0 where
  pub fin_tls_bb : List Bucket
  pub fin_tls_buffer_bb : Option (List ℕ)
  pub fin_plain_bb : List Bucket
  pub fout_tls_bb : List Bucket
  pub fout_buf_plain_size : ℕ
  pub fout_buf_plain : List ℕ
  pub fin_max_in_rustls : ℕ
  pub fout_max_in_rustls : ℕ
  pub fout_auto_flush_size : ℕ

unfoldable pub fresh_filter : Fresh
fresh_filter = record {
  fin_tls_bb = [];
  fin_tls_buffer_bb = none;
  fin_plain_bb = [];
  fout_tls_bb = [];
  fout_buf_plain_size = buf_plain_size;
  fout_buf_plain = [];
  fin_max_in_rustls = 4 * rec_max_size;
  fout_max_in_rustls = 4 * chunk_size;
  fout_auto_flush_size = 2 * rec_max_size;
}

-- With the filters, if the connection is ours; without them the result is DECLINED.
unfoldable pub filter_pre_conn_init : (ℕ → ServerConf) → ConnRec → ConnRec × Option Fresh
filter_pre_conn_init servers c =
    let r = pre_conn_init servers c in (r.0, if r.1 then some fresh_filter else none)

-- If `tls_filter_conn_init` sends an INIT down the input filters.
unfoldable pub sends_init : Option Conn → Option Fresh → Bool
sends_init none fctx = false
sends_init (some cc) fctx = is_some fctx && not cc.outgoing
