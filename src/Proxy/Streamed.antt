-- ===== src/Proxy/Streamed.antt =====
-- What a download delivers, and which record says so.
use atrium_core.Base.{
  ℕ, ◌≡◌, refl, ap, ◌∙◌, Bool, true, false, some, List, [], ◌∷◌, ◌++◌, Text, txt, length, arith,
  if◌then◌else◌, pos,
}
use mathlib.Core.Path.{subst}
use mathlib.Core.List.{append-nil}
use atrium_core.Base.Result.{Result, ok, err}
use atrium_core.Slog.{Attr, Logger, Level, log_attrs, level_info, level_warn}
use atrium_core.Http.{Request, Stream, Out, emit, path_value}
use atrium_core.Audit.{
  log, request_attrs, level_audit, event_download_start, event_download_complete, string_attr,
  int_attr,
}
use atrium_core.Provider.{ProviderError, Content, meta_from_request}
use atrium_core.Auth.Session.{SessionData}
use atrium_core.Proxy.{
  Proxy, Link, copy, share_attrs, content_headers, stream_content, finish_download, handle_download,
  handle_folder_file_download,
}
use atrium_core.Proxy.Limit.{bytes_of, raw_bytes, Delivered, copy-Delivered}
use atrium_core.Proxy.Copied.{is_whole, Kept, copy-log, copy-whole, content_headers-Kept}

-- A record of a response, by the log before it.
log-log :
    (l : Logger) (r : Request) (at : Level) (event : Text) (extra : List Attr) (v w : Out)
    → v.log ≡ w.log
    → (log l r at event extra v).log ≡ (log l r at event extra w).log
unfolding log emit
log-log l r at event extra v w h =
    ap (λ lines. lines ++ log_attrs l at event (request_attrs r ++ extra)) h

emit-log :
    (l : Logger) (at : Level) (message : Text) (attrs : List Attr) (v w : Out)
    → v.log ≡ w.log
    → (emit l at message attrs v).log ≡ (emit l at message attrs w).log
unfolding emit
emit-log l at message attrs v w h = ap (λ lines. lines ++ log_attrs l at message attrs) h

module _ (p : Proxy) (link : Link) (r : Request) (share_id email : Text) (extra : List Attr)
    (s : Stream) where
  -- The record of a download that begins, and the one that ends it.
  abbrev started : Out → Out
  started = log p.logger r level_audit event_download_start (share_attrs share_id email ++ extra)

  abbrev ended : Bool → Out → Out
  ended true = log p.logger r level_info event_download_complete (
      share_attrs share_id email
      ++ (extra ++ int_attr (txt "file_size") (pos (length (bytes_of s))) ∷ []))
  ended false =
      emit p.logger level_warn (txt "download stream interrupted")
        (string_attr (txt "share_id") share_id ∷ [])

  -- What a download of the body `s` adds to a response: a first part of the body, and the records of its
  -- beginning and its end; the whole body and the record of completion exactly if the body ends well and the
  -- connection takes all of it.
  pub record IsStreamed (w w' : Out) : Type 0 where
    pub first : Text
    pub missing : Text
    pub whole : bytes_of s ≡ first ++ missing
    pub appended : raw_bytes w'.body ≡ raw_bytes w.body ++ first
    pub complete : is_whole link s ≡ true → missing ≡ []
    pub logged : w'.log ≡ (ended (is_whole link s) (started w)).log

  -- The end of streamContent, behind the copy.
  abbrev finished : (ℕ × Bool) × Out → Out
  finished ((n, done), v) =
      if done
      then log p.logger r level_info event_download_complete
          (share_attrs share_id email ++ (extra ++ int_attr (txt "file_size") (pos n) ∷ [])) v
      else emit p.logger level_warn (txt "download stream interrupted")
          (string_attr (txt "share_id") share_id ∷ []) v

  finished-body : (result : (ℕ × Bool) × Out) → (finished result).body ≡ result.1.body
  unfolding log emit
  finished-body ((n, true), v) = refl
  finished-body ((n, false), v) = refl

  finished-log :
      (result : (ℕ × Bool) × Out) (w : Out)
      → result.1.log ≡ w.log
      → (result.0.1 ≡ true → result.0.0 ≡ length (bytes_of s))
      → (finished result).log ≡ (ended result.0.1 w).log
  finished-log ((n, true), v) w h k = rw (k refl) (log-log p.logger r level_info _ _ v w h)
  finished-log ((n, false), v) w h k = emit-log p.logger level_warn _ _ v w h

  counted_whole :
      (v : Out) (result : (ℕ × Bool) × Out)
      → Delivered s 0 v result
      → result.0.1 ≡ true
      → result.0.0 ≡ length (bytes_of s)
  counted_whole v result d e =
      let all : bytes_of s ≡ d.first =
        d.whole ∙ ap (λ t. d.first ++ t) (d.complete e).0 ∙ append-nil d.first in
      omega (arith, d.counted, ap length all)

  finished-IsStreamed :
      (w v : Out) (result : (ℕ × Bool) × Out)
      → Kept (started w) v
      → raw_bytes (started w).body ≡ raw_bytes w.body
      → Delivered s 0 v result
      → result.0.1 ≡ is_whole link s
      → result.1.log ≡ v.log
      → IsStreamed w (finished result)
  finished-IsStreamed w v result kept same d done lines = record {
    first = d.first;
    missing = d.missing;
    whole = d.whole;
    appended =
        ap raw_bytes (finished-body result)
        ∙ d.appended
        ∙ ap (λ t. t ++ d.first) (ap raw_bytes kept.1 ∙ same);
    complete = λ e. (d.complete (done ∙ e)).0;
    logged =
        subst (λ b. (finished result).log ≡ (ended b (started w)).log) done
          (finished-log result (started w) (lines ∙ kept.0) (counted_whole v result d));
  }

module _ (p : Proxy) (link : Link) (r : Request) where
  started-body :
      (share_id email : Text) (extra : List Attr) (s : Stream) (w : Out)
      → (started p link r share_id email extra s w).body ≡ w.body
  unfolding log emit
  started-body share_id email extra s w = refl

  stream_content-IsStreamed :
      (share_id email : Text) (content : Content) (extra : List Attr) (w : Out)
      → IsStreamed p link r share_id email extra content.body w
          (stream_content p link r share_id email content extra w)
  unfolding stream_content
  stream_content-IsStreamed share_id email content extra w =
      let w₁ = started p link r share_id email extra content.body w in
      let v = content_headers p content w₁ in
      finished-IsStreamed p link r share_id email extra content.body w v
        (copy link content.body 0 v) (content_headers-Kept p content w₁)
        (ap raw_bytes (started-body share_id email extra content.body w))
        (copy-Delivered link content.body 0 v) (copy-whole link content.body 0 v)
        (copy-log link content.body 0 v)

  -- The response to a download, by what the provider returned: where it delivers, what IsStreamed says.
  abbrev pub IsAnswered :
      Text → Text → List Attr → Result ProviderError Content → Out → Out → Type 0
  IsAnswered share_id email extra (err e) w w' = Unit
  IsAnswered share_id email extra (ok content) w w' =
      IsStreamed p link r share_id email extra content.body w w'

  finish_download-IsAnswered :
      (share_id email : Text) (extra : List Attr) (d : Result ProviderError Content) (w : Out)
      → IsAnswered share_id email extra d w (finish_download p link r share_id email extra d w)
  unfolding finish_download
  finish_download-IsAnswered share_id email extra (err e) w = tt
  finish_download-IsAnswered share_id email extra (ok content) w =
      stream_content-IsStreamed share_id email content extra w

  -- A download in a session, of a share or of a file in a folder, whose provider delivers a body: whatever
  -- the connection takes, the response gets a first part of the body, in order and nothing else, and the log
  -- the record of the start; then, exactly if the body ends well and the connection takes all of it, the
  -- whole body has been sent and the log gets the record of completion with the size of the body, and
  -- otherwise the warning that the stream was interrupted.
  pub handle_download-IsStreamed :
      (session : SessionData) (w : Out)
      → let meta = meta_from_request r in
        let share_id = path_value r (txt "shareID") in
        let file_id = path_value r (txt "fileID") in
        IsAnswered share_id session.email []
          (p.provider.download meta share_id session.email)
          w
          (handle_download p link (some session) r w)
        × IsAnswered share_id session.email
            (string_attr (txt "file_id") file_id ∷ [])
            (p.provider.download_folder_file meta share_id file_id session.email)
            w
            (handle_folder_file_download p link (some session) r w)
  unfolding handle_download handle_folder_file_download
  handle_download-IsStreamed session w = (
    finish_download-IsAnswered _ session.email [] _ w,
    finish_download-IsAnswered _ session.email _ _ w,
  )
