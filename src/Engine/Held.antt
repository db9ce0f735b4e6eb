-- ===== src/Engine/Held.antt =====
-- What `access` of the engine answers.
use Prim.Native.String.{String}
use vugva.Common.{
  sign_extend, ℕ, ◌≡◌, refl, ap, ◌==◌, inl, inr, Option, none, some, List, [], ◌∷◌, get_elem?,
  Bool-cases, Option-cases, ==→eq,
}
use vugva.Error.{unknown_allocation, invalid_gpu}
use vugva.Action.{pure, or_raise, or_panic, gets, then_end, ◌>>=◌, ◌>>◌}
use vugva.Action.Ends.{Leaves, then_end-Leaves}
use vugva.Driver.{Driver}
use vugva.Streams.{CudaStream, synchronize}
use vugva.Gpu.Ordinals.{index_of}
use vugva.Vmt.{Chunk, Page, lookup}
use vugva.Engine.{VugvaEngine, Method, driven, push_chunk, alloc_device, peer_copy_async}
use vugva.Engine.Access.{resident_chunk, copy_chunk, fetch, access_page, access, known}
use vugva.Engine.Keeps.{lookup-update, driven-keeps}
use vugva.Engine.OnGpu.{HasChunk, On-last, resident_chunk-On}

module _ {W : Type 0} (cuda : Driver W) where
  push_chunk-HasChunk :
      (name : String) (page : Page) (gpu_ordinal ptr size element_size : ℕ) (s : VugvaEngine × W)
      → lookup s.0.vmt name ≡ some page
      → Leaves
          (λ _ t. HasChunk name gpu_ordinal ptr t.0.vmt)
          (push_chunk cuda name gpu_ordinal ptr size element_size s)
  push_chunk-HasChunk name page gpu_ordinal ptr size element_size s h =
      elim (Bool-cases (element_size == 0)) [
        | inl e ↦ rw e tt
        | inr e ↦ rw e (record {
          page = _;
          found = lookup-update s.0.vmt name _ page h;
          chunk = On-last gpu_ordinal page.vram_chunks _ refl;
        })
      ]

  module _ (name : String) (gpu_ordinal gpu_idx : ℕ) (page : Page) where
    abbrev Known : VugvaEngine → Type 0
    Known e = lookup e.vmt name ≡ some page

    abbrev Goal : ℕ → VugvaEngine × W → Type 0
    Goal ptr t = HasChunk name gpu_ordinal ptr t.0.vmt

    -- The steps after the stream is known.
    abbrev copied : ℕ → Chunk → ℕ → CudaStream → Method cuda ℕ
    copied src_idx src dst_ptr stream =
        driven cuda (λ cs.
          peer_copy_async cuda cs src_idx src.device_ptr gpu_idx dst_ptr src.size_bytes
            stream.inner)
        >> driven cuda (λ cs. synchronize cuda stream)
        >> push_chunk cuda name gpu_ordinal dst_ptr src.size_bytes page.element_size
        >> pure dst_ptr

    copied-HasChunk :
        (src_idx : ℕ) (src : Chunk) (dst_ptr : ℕ) (stream : CudaStream) (t : VugvaEngine × W)
        → Known t.0
        → Leaves Goal (copied src_idx src dst_ptr stream t)
    copied-HasChunk src_idx src dst_ptr stream t h =
        let copy : Method cuda (Unit {0}) = driven cuda (λ cs.
          peer_copy_async cuda cs src_idx src.device_ptr gpu_idx dst_ptr src.size_bytes
            stream.inner) in
        let wait : Method cuda (Unit {0}) = driven cuda (λ cs. synchronize cuda stream) in
        let push : Method cuda (Unit {0}) =
          push_chunk cuda name gpu_ordinal dst_ptr src.size_bytes page.element_size in
        then_end-Leaves (λ _ u. HasChunk name gpu_ordinal dst_ptr u.0.vmt) Goal
          ((copy >> wait >> push) t) (λ _. pure dst_ptr)
          (then_end-Leaves (λ _ u. Known u.0) (λ _ u. HasChunk name gpu_ordinal dst_ptr u.0.vmt)
            ((copy >> wait) t) (λ _. push)
            (then_end-Leaves (λ _ u. Known u.0) (λ _ u. Known u.0) (copy t) (λ _. wait)
              (driven-keeps cuda Known
                (λ cs.
                  peer_copy_async cuda cs src_idx src.device_ptr gpu_idx dst_ptr src.size_bytes
                    stream.inner)
                t h)
              (λ _ u k. driven-keeps cuda Known (λ cs. synchronize cuda stream) u k))
            (λ _ u k.
              push_chunk-HasChunk name page gpu_ordinal dst_ptr src.size_bytes page.element_size u
                k))
          (λ _ u k. k)

    with_stream-HasChunk :
        (src_idx : ℕ) (src : Chunk) (dst_ptr : ℕ) (t : VugvaEngine × W) (o : Option CudaStream)
        → Known t.0
        → Leaves Goal (then_end (copied src_idx src dst_ptr) (or_panic o t).1 (or_panic o t).0)
    with_stream-HasChunk src_idx src dst_ptr t none h = tt
    with_stream-HasChunk src_idx src dst_ptr t (some stream) h =
        copied-HasChunk src_idx src dst_ptr stream t h

    -- The steps after the index of the source is known.
    abbrev from_gpu : Chunk → ℕ → Method cuda ℕ
    from_gpu src src_idx =
        driven cuda (λ cs. alloc_device cuda cs gpu_idx src.size_bytes) >>= λ dst_ptr.
        (gets λ s. get_elem? s.0.streams.compute gpu_idx)
        >>= or_panic
        >>= copied src_idx src dst_ptr

    copy_chunk-HasChunk :
        (src : Chunk) (s : VugvaEngine × W) (o : Option ℕ)
        → Known s.0
        → Leaves Goal (then_end (from_gpu src) (or_panic o s).1 (or_panic o s).0)
    copy_chunk-HasChunk src s none h = tt
    copy_chunk-HasChunk src s (some src_idx) h =
        then_end-Leaves (λ _ t. Known t.0) Goal
          (driven cuda (λ cs. alloc_device cuda cs gpu_idx src.size_bytes) s)
          (λ dst_ptr.
            (gets λ t. get_elem? t.0.streams.compute gpu_idx)
            >>= or_panic
            >>= copied src_idx src dst_ptr)
          (driven-keeps cuda Known (λ cs. alloc_device cuda cs gpu_idx src.size_bytes) s h)
          (λ dst_ptr t k.
            with_stream-HasChunk src_idx src dst_ptr t (get_elem? t.0.streams.compute gpu_idx) k)

    fetch-HasChunk :
        (cs : List Chunk) (s : VugvaEngine × W)
        → page.vram_chunks ≡ cs
        → Known s.0
        → Leaves Goal (fetch cuda name gpu_ordinal gpu_idx page cs s)
    unfolding fetch copy_chunk
    fetch-HasChunk [] s e h = tt
    fetch-HasChunk (src ∷ cs) s e h = elim (Bool-cases (src.gpu_ordinal == gpu_ordinal)) [
      | inl same ↦
          rw (fetch, same)
            (record {
              page = page;
              found = h;
              chunk =
                  (0, src, ap (λ l. get_elem? l 0) e, ==→eq src.gpu_ordinal gpu_ordinal same, refl);
            })
      | inr other ↦
          rw (fetch, other)
            (copy_chunk-HasChunk src s (index_of s.0.cluster.ordinal_map src.gpu_ordinal) h)
    ]

    access_page-HasChunk :
        (s : VugvaEngine × W)
        → Known s.0
        → Leaves Goal (access_page cuda name gpu_ordinal gpu_idx page s)
    unfolding access_page
    access_page-HasChunk s h = elim (Option-cases (resident_chunk page gpu_ordinal)) [
      | inl e ↦ rw (access_page, e) (fetch-HasChunk page.vram_chunks s refl h)
      | inr (c, e) ↦
          rw (access_page, e)
            (record { page = page; found = h; chunk = resident_chunk-On page gpu_ordinal c e })
    ]

  -- An address that `access` answers is that of a chunk of the page on the GPU asked for, as the table then has it:
  -- one that was there, or the new copy of the first chunk.
  pub access-HasChunk :
      (name : String) (gpu_ordinal : ℕ) (s : VugvaEngine × W)
      → Leaves (λ ptr t. HasChunk name gpu_ordinal ptr t.0.vmt) (access cuda name gpu_ordinal s)
  unfolding access
  access-HasChunk name gpu_ordinal s = indexed (index_of s.0.cluster.ordinal_map gpu_ordinal)
    where
      looked_up :
          (gpu_idx : ℕ) (o : Option Page)
          → lookup s.0.vmt name ≡ o
          → Leaves
              (λ ptr t. HasChunk name gpu_ordinal ptr t.0.vmt)
              (then_end
                (access_page cuda name gpu_ordinal gpu_idx)
                (or_raise o (unknown_allocation name) s).1
                (or_raise o (unknown_allocation name) s).0)
      looked_up gpu_idx none e = tt
      looked_up gpu_idx (some page) e = access_page-HasChunk name gpu_ordinal gpu_idx page s e

      indexed :
          (o : Option ℕ)
          → Leaves
              (λ ptr t. HasChunk name gpu_ordinal ptr t.0.vmt)
              (then_end
                (λ gpu_idx. known cuda name >>= access_page cuda name gpu_ordinal gpu_idx)
                (or_raise o (invalid_gpu (sign_extend gpu_ordinal)) s).1
                (or_raise o (invalid_gpu (sign_extend gpu_ordinal)) s).0)
      indexed none = tt
      indexed (some gpu_idx) = looked_up gpu_idx (lookup s.0.vmt name) refl
