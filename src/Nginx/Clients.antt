-- ===== src/Nginx/Clients.antt =====
-- The access handler on a request whose client has presigned it.
use sigv4_verify.Base.{◌≡◌, sym, ◌∙◌, subst, true, some, Bytes, All, IsByte}
use sigv4_verify.Crypto.{Crypto}
use sigv4_verify.Config.{Mode}
use sigv4_verify.Date.{ParsedAmzDate}
use sigv4_verify.Verifier.{State, CompiledCredential, verify}
use sigv4_verify.Verifier.Allowed.{IsSound, verify-allowed}
use sigv4_verify.Presigner.{PresignInput, presigned_uri}
use sigv4_verify.Presigner.Grantable.{IsGrantable}
use sigv4_verify.Presigner.Accepted.{presigned_uri-verify}
use sigv4_verify.Nginx.Access.{Request, ngx_ok, method_of, host_of, verifier_of, handle_request}
use sigv4_verify.Nginx.Serving.{mode_of, handle_request-enforces}

-- What NGINX passes on of a request that is sent as the presigner was asked for it.
pub record IsSent (crypto : Crypto) (request : Request) (input : PresignInput) : Type 0 where
  pub method_lem : method_of request ≡ input.method
  pub host_lem : host_of request ≡ input.host
  pub uri_lem : presigned_uri crypto input ≡ some request.unparsed_uri

some_injective : {A : Type 0} {a b : A} → some a ≡ some b → a ≡ b
some_injective h = cc

module _ (crypto : Crypto) (request : Request) where
  -- In a location whose mode is on, if the context is allocated, the request finds a verifier
  -- whose caches are sound, HMAC values consist of bytes, and the request comes with the URI that
  -- the presigner of the tests gives for a request with its method and host that meets IsGrantable
  -- (which the verifier's configuration grants and whose other parameters are well formed), the
  -- handler answers NGX_OK.
  pub handle_request-presigned :
      (input : PresignInput) (v : State) (cred : CompiledCredential) (parsed : ParsedAmzDate)
      → mode_of crypto request ≡ some Mode.on
      → request.allocates ≡ true
      → verifier_of request.main_conf ≡ some v
      → IsSound crypto v
      → ((key data' : Bytes) → All IsByte (crypto.hmac_sign key data'))
      → IsSent crypto request input
      → IsGrantable v input request.now cred parsed
      → (handle_request crypto request).status ≡ ngx_ok
  handle_request-presigned input v cred parsed on room here sound bytes sent g =
      let (uri, written, allowed) =
        presigned_uri-verify crypto v input request.now cred parsed sound g bytes in
      let same = some_injective (sym written ∙ sent.uri_lem) in
      let granted : (verify crypto v (method_of request) request.unparsed_uri (host_of request)
            request.now).0.allowed
          ≡ true =
        rw (sent.method_lem, sent.host_lem, ← same) allowed in
      let (c, met, signed) =
        (verify-allowed crypto v (method_of request) request.unparsed_uri (host_of request)
            request.now sound).0
          granted in
      (handle_request-enforces crypto request on
          (λ v' here'. subst (IsSound crypto) (some_injective (sym here ∙ here')) sound)).1
        (room, v, here, c, met, signed)
