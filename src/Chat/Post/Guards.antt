-- ===== src/Chat/Post/Guards.antt =====
-- chat/websocket.go: the limits of a post and the pictures that may go with it.
use mamechat.Prelude.{
  ◌+◌, ◌*◌, ◌≤◌, ◌≡◌, false, not, ◌||◌, Option, none, some, [], ◌∷◌, Text, ℤ, length, ==_iff,
  lookup, lookup-delete_self, arith, Bool-cases, inl, inr,
}
use mamechat.Strings.{is_empty, trim_space, byte_len}
use mamechat.Chat.User.{Client}
use mamechat.Chat.Hub.{Env, taking_upload}
use mamechat.Chat.Post.{
  StagedImage, Desk, Board, message_max_len, read_limit_bytes, nothing, gone, image, checked, taken,
  resolve_image,
}

byte_len_bound : (s : Text) → byte_len s ≤ 4 * length s
unfolding byte_len
byte_len_bound [] = omega arith
byte_len_bound (c ∷ s) = ground (arith, byte_len_bound s)

-- A text that is not too long for a post is read whole, with 1024 bytes left for the frame around
-- it, however its characters are encoded.
pub read_limit_bytes_suffices :
    (max_len : ℤ) (body : Text)
    → length body ≤ message_max_len max_len
    → byte_len body + 1024 ≤ read_limit_bytes max_len
unfolding read_limit_bytes
read_limit_bytes_suffices max_len body h = ground (arith, byte_len_bound body)

-- What holds of a picture that a client may post.
pub record IsOwn (c : Client) (i : StagedImage) : Type 0 where
  pub by_user : i.user_id ≡ c.user.id
  pub in_channel : i.channel_id ≡ c.channel_id
  pub has_path : is_empty i.storage_path ≡ false

checked-IsOwn :
    (c : Client) (o : Option StagedImage) (i : StagedImage)
    → checked c o ≡ image i
    → (o ≡ some i) × IsOwn c i
unfolding checked
checked-IsOwn c none i h = absurd (ground arith)
checked-IsOwn c (some j) i h =
    ground (arith, ==_iff j.user_id c.user.id, ==_iff j.channel_id c.channel_id)

nothing-image : {i : StagedImage} → nothing ≡ image i → ⊥
nothing-image e = cc

gone-image : {i : StagedImage} → gone ≡ image i → ⊥
gone-image e = cc

module _ (desk : Desk) (env : Env) (c : Client) (token : Text) where
  taken-IsOwn :
      (token : Text) (o : Option Text) (b : Board) (i : StagedImage)
      → (taken desk c token o b).1 ≡ image i
      → IsOwn c i × (lookup token (taken desk c token o b).0.staged ≡ none)
  unfolding taken
  taken-IsOwn token none b i h = absurd (ground arith)
  taken-IsOwn token (some payload) b i h =
      ((checked-IsOwn c (desk.decode payload) i h).1, lookup-delete_self token b.staged)

  -- A picture that goes with a post was uploaded by the same user for the same channel, and its
  -- token is used up, so that it is staged no more.
  pub resolve_image-IsOwn :
      (b : Board) (i : StagedImage)
      → (resolve_image desk env c token b).1 ≡ image i
      → IsOwn c i × (lookup (trim_space token) (resolve_image desk env c token b).0.staged ≡ none)
  unfolding resolve_image
  resolve_image-IsOwn b i h =
      let key = trim_space token in
      elim (Bool-cases (is_empty key || not desk.has_images)) [
        | inl e ↦ absurd (nothing-image (rw e at h))
        | inr e ↦ elim (Bool-cases (env.fails taking_upload)) [
          | inl f ↦ absurd (gone-image (rw (e, f) at h))
          | inr f ↦ rw (e, f) (taken-IsOwn key (lookup key b.staged) b i (rw (e, f) at h))
        ]
      ]
