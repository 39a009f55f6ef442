-- ===== src/Capture/Upload/Request/Bounds.antt =====
-- capture/frame_upload.py: what a request that passes the checks satisfies.
use pages_to_rgb.Prelude.{ℕ, ◌≡◌, ◌≤◌, refl, List, length, arith, subst}
use pages_to_rgb.Common.Exec.{Result, ok, err, and_then, Done, Error}
use pages_to_rgb.Capture.Upload.Request.{
  FrameUploadRequest, Checked, Library, Decoded, no_decoder, undecodable, image, validate,
  check_size, check_index, check_number, check_hash, validate_mime, validate_image_content,
  max_frame_size,
}

and_then_rule {ℓ κ μ} :
    {A : Type ℓ} {B : Type κ} (Q : Result B → Type μ) (m : Result A) (f : A → Result B)
    → ((a : A) → m ≡ ok a → Q (f a))
    → ((e : Error) → Q (err e))
    → Q (and_then m f)
and_then_rule Q (ok a) f h k = h a refl
and_then_rule Q (err e) f h k = k e

ok_injective {ℓ} : {A : Type ℓ} {a b : A} → ok a ≡ ok b → a ≡ b
ok_injective h = cc h

abbrev pub Side : ℕ → Type 0
Side n = (64 ≤ n) × (n ≤ 8192)

size_ok : (bytes : List ℕ) {d : Done} → check_size bytes ≡ ok d → length bytes ≤ max_frame_size
unfolding check_size
size_ok bytes {d} h = ground arith

sides_ok :
    (d : Decoded) {width height : ℕ}
    → validate_image_content d ≡ ok (width, height)
    → Side width × Side height
unfolding validate_image_content
sides_ok no_decoder h = cc h
sides_ok undecodable h = cc h
sides_ok (image x y) h = ground arith

-- The size of the file and the sides of the image.
abbrev pub Bounded : FrameUploadRequest → Checked → Type 0
Bounded r c = (length r.bytes ≤ max_frame_size) × Side c.width × Side c.height

abbrev AllBounded : FrameUploadRequest → Result Checked → Type 0
AllBounded r out = (c : Checked) → out ≡ ok c → Bounded r c

pub validate-Bounded : (lib : Library) (r : FrameUploadRequest) → AllBounded r (validate lib r)
unfolding validate
validate-Bounded lib r =
    let raises : (e : Error) → AllBounded r (err e) = λ e c h. cc h in
    and_then_rule (AllBounded r) (check_index r.frame_index) _
      (λ index _.
        and_then_rule (AllBounded r) (check_number r.page_number) _
          (λ page _.
            and_then_rule (AllBounded r) (check_number r.frame_number) _
              (λ number _.
                and_then_rule (AllBounded r) (validate_mime r.bytes r.mime_type) _
                  (λ _ _.
                    and_then_rule (AllBounded r) (check_size r.bytes) _
                      (λ _ size.
                        and_then_rule (AllBounded r) (validate_image_content (lib.decode r.bytes)) _
                          (λ sides image_ok.
                            and_then_rule (AllBounded r) (check_hash lib r.bytes r.declared_sha256)
                              _
                              (λ digest _ c h.
                                (let (wide, high) = sides_ok (lib.decode r.bytes) image_ok in
                                  subst (Bounded r) (ok_injective h)
                                    (size_ok r.bytes size, wide, high)))
                              raises)
                          raises)
                      raises)
                  raises)
              raises)
          raises)
      raises
