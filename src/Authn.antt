-- ===== src/Authn.antt =====
-- Authentication: the crate src/authn behind its protocols.
pub mod Linking
mod LinkingLaws
mod LinkLaws
pub mod Token
mod TokenLaws
mod TokenTrip
pub mod Projection
mod ProjectionBounds
mod ProjectionLaws
pub mod Pipeline
mod PipelineLaws
pub mod Failure
pub mod Challenge
pub mod Application
pub mod Provider
pub mod Login
pub mod Oauth2
mod FlowLaws
mod OneTime
mod ApplicationLaws
pub mod Examples
pub mod PipelineExamples
mod FlowCodec
mod FlowExamples
