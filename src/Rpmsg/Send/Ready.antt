-- ===== src/Rpmsg/Send/Ready.antt =====
-- `is_rpmsg_ept_ready` says whether `rpmsg_send` and its kin reach the transport.
use openamp_core.Prelude.{
  ◌≡◌, refl, Bool, true, false, not, ℤ, is_negative, ◌==◌, if◌then◌else◌, Bool-cases, inl, inr,
}
use openamp_core.Rpmsg.Address.{rpmsg_err_param, rpmsg_addr_any}
use openamp_core.Rpmsg.Endpoint.{Ptr, Data, Device, is_null, cannot_send, call_send, send_raw}
use openamp_core.Rpmsg.Send.{send, trysend, is_ept_ready}

flip {ℓ} : {A : Type ℓ} (b : Bool) (x y : A) → (if not b then x else y) ≡ (if b then y else x)
flip true x y = refl
flip false x y = refl

module _ {W : Type 0} (d : Device W) (p : Ptr) (payload : Data) (len : ℤ) where
  ready-cannot_send :
      is_null payload ≡ false
      → is_negative len ≡ false
      → cannot_send d p (d.ept p).dest_addr payload len ≡ not (is_ept_ready d p)
  unfolding cannot_send is_ept_ready
  ready-cannot_send there size = elim (Bool-cases (p == 0)) [
    | inl null ↦ rw null refl
    | inr q ↦ elim (Bool-cases (d.ept p).rdev) [
      | inr unbound ↦ rw (q, unbound) refl
      | inl bound ↦ elim (Bool-cases ((d.ept p).dest_addr == rpmsg_addr_any)) [
        | inl any ↦ rw (q, bound, there, any) refl
        | inr known ↦ rw (q, bound, there, known, size) refl
      ]
    ]
  ]

  unready : (p == 0) ≡ true → is_ept_ready d p ≡ false
  unfolding is_ept_ready
  unready null = rw null refl

  -- For data that are not NULL and a length that is not negative, both `rpmsg_send` and
  -- `rpmsg_trysend` go on to the call of the transport's operation, with the two addresses of the
  -- endpoint and their own way of waiting, if the endpoint is ready; otherwise they do nothing and
  -- answer RPMSG_ERR_PARAM.
  pub send-ready :
      is_null payload ≡ false
      → is_negative len ≡ false
      → (send d p payload len ≡ (
          if is_ept_ready d p
          then call_send d d.ops.send_offchannel_raw
              (d.ept p).addr
              (d.ept p).dest_addr
              payload
              len
              true
          else (rpmsg_err_param, d)))
        × (trysend d p payload len ≡ (
            if is_ept_ready d p
            then call_send d d.ops.send_offchannel_raw
                (d.ept p).addr
                (d.ept p).dest_addr
                payload
                len
                false
            else (rpmsg_err_param, d)))
  unfolding send trysend send_raw
  send-ready there size = elim (Bool-cases (p == 0)) [
    | inl null ↦ rw (null, unready null) (refl, refl)
    | inr q ↦
        rw (q, ready-cannot_send there size)
          (flip (is_ept_ready d p) _ _, flip (is_ept_ready d p) _ _)
  ]
