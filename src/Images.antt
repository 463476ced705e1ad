-- ===== src/Images.antt =====
-- internal/redirector and internal/devimage: the images, pinned by their digests.
use netcage.Base.{◌++◌}
use netcage.Text.{Text, codes}

-- `redirector.RunPathImageReference`, which is `ImageReference`.
abbrev pub redirector_reference : Text
redirector_reference =
    codes "docker.io/xjasonlyu/tun2socks"
    ++ (codes "@"
        ++ codes "sha256:aa931665f4a3ad9be7bc1ea5117c41471c20a770a62490e38090c839c1fef107")

-- `devimage.ImageReference`.
abbrev pub dev_image_reference : Text
dev_image_reference =
    codes "docker.io/library/buildpack-deps"
    ++ (codes "@"
        ++ codes "sha256:4efddd9a54ddc095e672b2fdf514f1ee4d3bb6e1f6ffc988b022c75e6ea99383")

-- `devimage.DNSProbeImageReference`.
abbrev pub dns_probe_reference : Text
dns_probe_reference =
    codes "docker.io/library/debian"
    ++ (codes "@"
        ++ codes "sha256:60eac759739651111db372c07be67863818726f754804b8707c90979bda511df")
